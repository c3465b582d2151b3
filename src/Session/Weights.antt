-- ===== src/Session/Weights.antt =====
-- session.go: what a round of OnMsg takes from the buffer.
use mathlib.Core.Path.{subst}
use muduo_go.Prelude.{
  ℕ, ◌+◌, ◌-◌, ◌*◌, ◌≤◌, ◌<◌, ◌≡◌, ◌≢◌, Bool-cases, inl, inr, copy_at, refl, ap, Bool, true, false,
  List, ◌++◌, if◌then◌else◌, ok, arith, ltb, length, take, drop, length-take, length-drop,
  length-append, pos, negsuc, pos_part, ℤ, leb_ℤ,
}
use muduo_go.Text.{bytes}
use muduo_go.Buffer.{Buffer, search_bytes, readable_bytes, advance}
use muduo_go.Buffer.Layout.{layout, readable_bytes-layout}
use muduo_go.Buffer.Searching.{search_sound}
use muduo_go.Buffer.Reading.{advance_within}
use muduo_go.Memcached.{Item, slice_to, need_bytes, append_bytes}
use muduo_go.Session.{Session, SessionState, new_command}
use muduo_go.Session.Messages.{avail_of, is_done}

abbrev pub weight : SessionState → ℕ
weight new_command = 0
weight _ = 1

-- `buf` has `n` unread bytes, and twice that and the weight of the state are below `limit`.
pub record IsShorter (limit : ℕ) (s : Session) (buf : Buffer) : Type 0 where
  pub consumed : List ℕ
  pub unread : List ℕ
  pub free : List ℕ
  pub same : buf ≡ layout consumed unread free
  pub less : 2 * length unread + weight s.state < limit

pub advanced :
    (limit n : ℕ) (s : Session) (p d f : List ℕ)
    → n ≤ length d
    → 2 * (length d - n) + weight s.state < limit
    → IsShorter limit s (advance (pos n) (layout p d f))
advanced limit n s p d f h l = record {
  consumed = p ++ take n d;
  unread = drop n d;
  free = f;
  same = advance_within n p d f h;
  less = omega (arith, length-drop n d);
}

Goes : ℕ → Bool × Session × Buffer → Type 0
Goes limit r = r.0 ≡ true → IsShorter limit r.1 r.2

pub slice_to-within :
    (z : ℤ) (d got : List ℕ)
    → slice_to z d ≡ ok got
    → (n : ℕ) × (z ≡ pos n) × (n ≤ length d) × (length got ≡ n)
slice_to-within (pos n) d got h = (n, refl, ground (arith, h), ground (arith, h, length-take n d))
slice_to-within (negsuc n) d got h = absurd (cc)

pub found_within :
    (p d f : List ℕ) (i : ℕ)
    → search_bytes (bytes "\r\n") (layout p d f) ≡ ok (pos i)
    → i + 2 ≤ length d
found_within p d f i h =
    let ((u, v, e, l), least) = search_sound p d f (bytes "\r\n") i h in
    omega (arith, ap (λ xs. length xs) e, length-append u (bytes "\r\n" ++ v))

-- Nothing is left to come in an item that asks for no byte and gets none.
pub nothing_left :
    (it filled : Item) (got : List ℕ)
    → need_bytes it ≡ pos 0
    → length got ≡ 0
    → append_bytes got it ≡ ok filled
    → need_bytes filled ≡ pos 0
unfolding append_bytes need_bytes
nothing_left it filled got z l h = elim (Bool-cases (ltb (length it.contents) it.recv_bytes)) [
  | inl e ↦ absurd (cc)
  | inr e ↦
      let same : record it {
        contents = copy_at it.recv_bytes it.contents got;
        recv_bytes = it.recv_bytes + length got;
      }
          ≡ filled =
        cc in
      let none_more : it.recv_bytes + length got ≡ it.recv_bytes = omega arith in
      subst (λ x. need_bytes x ≡ pos 0) same (rw none_more z)
]

zero_choice : (b : Bool) (n r : ℤ) → 0 < pos_part r → (if b then n else r) ≡ pos 0 → n ≡ pos 0
zero_choice true n r h e = e
zero_choice false n r h e = absurd (omega (arith, ap pos_part e))

pub done_zero : (z : ℤ) → is_done z ≡ false → z ≢ pos 0
done_zero z h e = cc (ap is_done e)

pub avail_zero :
    (it : Item) (p d f : List ℕ)
    → 0 < length d
    → avail_of it (layout p d f) ≡ pos 0
    → need_bytes it ≡ pos 0
avail_zero it p d f h e =
    zero_choice (leb_ℤ (need_bytes it) (readable_bytes (layout p d f))) (need_bytes it)
      (readable_bytes (layout p d f)) (rw (readable_bytes-layout p d f) h) e
