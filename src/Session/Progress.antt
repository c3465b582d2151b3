-- ===== src/Session/Progress.antt =====
-- session.go: the loop of OnMsg ends.
use mathlib.Core.Path.{subst}
use muduo_go.Prelude.{
  ℕ, zero, suc, ◌+◌, ◌*◌, ◌%◌, ◌^◌, ◌<◌, ◌≡◌, Bool-cases, inl, inr, refl, sym, ap, Bool, true,
  false, Option, none, some, List, Run, ok, panic, arith, ◌-ℤ◌, length, pos, pos_part, ℤ, ltb_ℤ,
  ltb_ℤ-pos, Post,
}
use muduo_go.Buffer.{Buffer, readable_bytes}
use muduo_go.Buffer.Layout.{layout, readable_bytes-layout}
use muduo_go.Session.{Session, ascii, Call}
use muduo_go.Session.Messages.{one_round, after_round, on_msg_loop, on_msg, count_bytes}
use muduo_go.Session.Invariant.{IsSound}
use muduo_go.Session.Soundness.{PostIf, on_msg-IsReady, IsReady, one_round-IsReady}
use muduo_go.Session.Weights.{IsShorter, weight}
use muduo_go.Session.Rounds.{round_by-IsShorter, Ends, weight-le}

module _ (hash : List ℕ → ℕ) (writable : List Call → ℤ) where
  after_round-Ends :
      (loop : Session → Buffer → Option (Run (Session × Buffer)))
      (r : Run (Bool × Session × Buffer)) (limit : ℕ)
      → Post r (λ x. IsReady x.1)
      → Post r (λ x. x.0 ≡ true → IsShorter limit x.1 x.2)
      → ((t : Session) (rest : Buffer) → IsReady t → IsShorter limit t rest → Ends (loop t rest))
      → Ends (after_round hash writable loop r)
  after_round-Ends loop panic limit v l k = (panic, refl)
  after_round-Ends loop (ok (true, t, rest)) limit v l k = k t rest v (l refl)
  after_round-Ends loop (ok (false, t, rest)) limit v l k = (ok (t, rest), refl)

  on_msg_loop-Ends :
      (k : ℕ) (s : Session) (p d f : List ℕ)
      → IsReady s
      → 2 * length d + weight s.state < k
      → Ends (on_msg_loop hash writable k s (layout p d f))
  unfolding on_msg_loop one_round
  on_msg_loop-Ends zero s p d f v l = absurd (omega arith)
  on_msg_loop-Ends (suc k) s p d f v l =
      elim (Bool-cases (ltb_ℤ (pos 0) (readable_bytes (layout p d f)))) [
        | inr h ↦ rw (on_msg_loop, h) (ok (s, layout p d f), refl)
        | inl h ↦
            let some_left : 0 < length d = ground (
              arith,
              ap (λ z. ltb_ℤ (pos 0) z) (readable_bytes-layout p d f),
              ltb_ℤ-pos 0 (length d),
              h,
            ) in
            rw (on_msg_loop, h)
              (after_round-Ends (on_msg_loop hash writable k)
                (one_round hash writable s (layout p d f)) (2 * length d + weight s.state)
                (one_round-IsReady hash writable s (layout p d f) v)
                (round_by-IsShorter hash writable p d f some_left s.state s refl v.1)
                λ t rest w q.
                  subst (λ b. Ends (on_msg_loop hash writable k t b)) (sym q.same)
                    (on_msg_loop-Ends k t q.consumed q.unread q.free w (omega (arith, q.less))))
      ]

  count_bytes-Ends :
      (i : ℤ) (o : Option (Run (Session × Buffer))) → Ends o → Ends (count_bytes hash writable i o)
  count_bytes-Ends i none (r, e) = absurd (cc)
  count_bytes-Ends i (some panic) h = (panic, refl)
  count_bytes-Ends i (some (ok (t, rest))) h = (
    ok (
      record t { bytes_read = (t.bytes_read + pos_part (i -ℤ readable_bytes rest)) % 2 ^ 64 },
      rest,
    ),
    refl,
  )

on_msg-returns :
    (hash : List ℕ → ℕ) (writable : List Call → ℤ) (s : Session) (p d f : List ℕ)
    → IsReady s
    → (r : Run (Session × Buffer)) × (on_msg hash writable s (layout p d f) ≡ some r)
unfolding on_msg
on_msg-returns hash writable s p d f v =
    let initial : pos_part (readable_bytes (layout p d f)) ≡ length d =
      ap pos_part (readable_bytes-layout p d f) in
    count_bytes-Ends hash writable (readable_bytes (layout p d f)) _ (
      on_msg_loop-Ends hash writable (2 * pos_part (readable_bytes (layout p d f)) + 2) s p d f v
        (omega (arith, initial, weight-le s.state)))

-- On a sound session whose protocol is ASCII, and a buffer of any consumed, unread and free bytes,
-- the loop of OnMsg ends: after at most twice as many rounds as there are unread bytes, and two,
-- OnMsg has returned or panicked. If it has returned, the session is sound again: while it waits
-- for a command, no request is under way, while it waits for a value, there is an item for it, and
-- while it discards a value, there is none, as the handlers of these states assert.
pub on_msg-ends :
    (hash : List ℕ → ℕ) (writable : List Call → ℤ) (s : Session) (p d f : List ℕ)
    → IsSound s
    → s.protocol ≡ ascii
    → (r : Run (Session × Buffer)) × (on_msg hash writable s (layout p d f) ≡ some r)
      × Post r (λ x. IsReady x.0)
on_msg-ends hash writable s p d f v e =
    let (r, run) = on_msg-returns hash writable s p d f (v, e) in
    (r, run, subst PostIf run (on_msg-IsReady hash writable s (layout p d f) (v, e)))
