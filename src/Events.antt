-- ===== src/Events.antt =====
-- channel.go and poller.go: the event masks, `uint32` values that the code only combines with the
-- single-bit constants of poll(2). For a power of two `w`, `e & w != 0`, `e | w` and `e & ^w` are
-- written by division, which is what they mean for the bit of weight `w`.
use Prim.Native.Nat.{bit_and, bit_or}
use muduo_go.Prelude.{
  ℕ, zero, suc, ◌+◌, ◌-◌, ◌/◌, ◌%◌, ◌≡◌, refl, Bool, true, false, not, ◌&&◌, ◌==◌, if◌then◌else◌,
  arith,
}

abbrev pub poll_in : ℕ
poll_in = 0x1

abbrev pub poll_pri : ℕ
poll_pri = 0x2

abbrev pub poll_out : ℕ
poll_out = 0x4

abbrev pub poll_err : ℕ
poll_err = 0x8

abbrev pub poll_hup : ℕ
poll_hup = 0x10

abbrev pub poll_nval : ℕ
poll_nval = 0x20

abbrev pub poll_rdhup : ℕ
poll_rdhup = 0x2000

-- `e & w != 0`
abbrev pub has_bit : ℕ → ℕ → Bool
has_bit w e = not ((e / w) % 2 == 0)

-- `e | w`
abbrev pub set_bit : ℕ → ℕ → ℕ
set_bit w e = if has_bit w e then e else e + w

-- `e & ^w`
abbrev pub clear_bit : ℕ → ℕ → ℕ
clear_bit w e = if has_bit w e then e - w else e

-- `e | eventRead`, with eventRead = POLLIN | POLLPRI
unfoldable pub with_read : ℕ → ℕ
with_read e = set_bit poll_pri (set_bit poll_in e)

-- `e | eventWrite`
unfoldable pub with_write : ℕ → ℕ
with_write e = set_bit poll_out e

-- `e & ^eventWrite`
unfoldable pub without_write : ℕ → ℕ
without_write e = clear_bit poll_out e

-- `e & eventWrite != 0`
unfoldable pub wants_write : ℕ → Bool
wants_write e = has_bit poll_out e

pub wants_write-with_write : (e : ℕ) → wants_write (with_write e) ≡ true
unfolding wants_write with_write
wants_write-with_write e = ground arith

pub wants_write-without_write : (e : ℕ) → wants_write (without_write e) ≡ false
unfolding wants_write without_write
wants_write-without_write e = ground arith

pub without_write-with_write : (e : ℕ) → wants_write e ≡ false → without_write (with_write e) ≡ e
unfolding wants_write with_write without_write
without_write-with_write e h = ground arith

all_below : ℕ → (ℕ → Bool) → Bool
all_below zero p = true
all_below (suc n) p = p n && all_below n p

abbrev agrees : ℕ → Bool
agrees e =
    with_read e == bit_or e 3 && with_write e == bit_or e 4 && without_write e + bit_and e 4 == e

-- On every mask of six bits the operations are the bitwise ones.
bitwise : all_below 64 agrees ≡ true
unfolding all_below with_read with_write without_write
bitwise = refl
