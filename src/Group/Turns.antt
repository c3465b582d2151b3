-- ===== src/Group/Turns.antt =====
-- eventloop_engine_group.go: GetNextLoop goes round the workers.
use native.Mathlib.Decide.{dec_lt}
use native.Mathlib.Nat.{suc-mod, zero-mod, mod-eq_of_lt, mod_self}
use muduo_go.Prelude.{
  ℕ, zero, suc, ◌+◌, ◌%◌, ◌≤◌, ◌<◌, ◌≡◌, refl, sym, ap, ◌∙◌, Run, ok, ◌>>=◌, arith, length, get_or,
  get_elem?-get_or,
}
use muduo_go.Group.{EventloopEngineGroup, get_next_loop}

-- The group after `k` calls of GetNextLoop.
abbrev pub after_calls : ℕ → EventloopEngineGroup → Run EventloopEngineGroup
after_calls zero g = ok g
after_calls (suc k) g = do h ← after_calls k g; (_, f) ← get_next_loop h; ok f

module _ (g : EventloopEngineGroup) where
  -- The calls go on through the workers from `next` on.
  next-inside :
      g.next < length g.works
      → get_next_loop g ≡ ok (get_or g.works g.next 0, record g { next = g.next + 1 })
  unfolding get_next_loop
  next-inside p = ground (arith, get_elem?-get_or g.works g.next 0 p)

  next-wraps :
      0 < length g.works
      → length g.works ≤ g.next
      → get_next_loop g ≡ ok (get_or g.works 0 0, record g { next = 1 })
  unfolding get_next_loop
  next-wraps p q = ground (arith, get_elem?-get_or g.works 0 0 p)

-- What is known of the group `h` after `k` calls on `g`.
record IsTurn (g : EventloopEngineGroup) (k : ℕ) (h : EventloopEngineGroup) : Type 0 where
  run : after_calls k g ≡ ok h
  works : h.works ≡ g.works
  inside : h.next ≤ length g.works
  turn : h.next % length g.works ≡ k % length g.works

module _ (g : EventloopEngineGroup) (some : 0 < length g.works) where
  turn_inside :
      (k m : ℕ)
      → m < length g.works
      → m % length g.works ≡ k % length g.works
      → m ≡ k % length g.works
  turn_inside k m p e = sym (mod-eq_of_lt p) ∙ e

  turn_end :
      (k m : ℕ)
      → m ≡ length g.works
      → m % length g.works ≡ k % length g.works
      → k % length g.works ≡ 0
  turn_end k m p e = sym e ∙ ap (λ x. x % length g.works) p ∙ mod_self (length g.works)

  turn_next :
      (k m : ℕ)
      → m % length g.works ≡ k % length g.works
      → suc m % length g.works ≡ suc k % length g.works
  turn_next k m e =
      suc-mod m (length g.works)
      ∙ ap (λ x. suc x % length g.works) e
      ∙ sym (suc-mod k (length g.works))

  -- One more call from `h`.
  next-IsTurn :
      (k : ℕ) (h : EventloopEngineGroup)
      → IsTurn g k h
      → (f : EventloopEngineGroup) × (get_next_loop h
          ≡ ok (get_or g.works (k % length g.works) 0, f))
        × IsTurn g (suc k) f
  next-IsTurn k h v =
      let size : length h.works ≡ length g.works = ap (λ xs. length xs) v.works in
      elim (dec_lt h.next (length g.works)) [
        | yes p ↦
            let f : EventloopEngineGroup = record h { next = h.next + 1 } in
            let entry : get_or h.works h.next 0 ≡ get_or g.works (k % length g.works) 0 =
              ap (λ xs. get_or xs h.next 0) v.works
              ∙ ap (λ m. get_or g.works m 0) (turn_inside k h.next p v.turn) in
            let run : get_next_loop h ≡ ok (get_or g.works (k % length g.works) 0, f) =
              next-inside h (omega arith) ∙ ap (λ x. ok (x, f)) entry in
            (
              record h { next = h.next + 1 },
              run,
              record {
                run = rw v.run (rw run refl);
                works = v.works;
                inside = omega arith;
                turn =
                    (let e : h.next + 1 ≡ suc h.next = omega arith in
                      ap (λ x. x % length g.works) e ∙ turn_next k h.next v.turn);
              },
            )
        | no p ↦
            let f : EventloopEngineGroup = record h { next = 1 } in
            let root : k % length g.works ≡ 0 =
              turn_end k h.next (omega (arith, v.inside)) v.turn in
            let entry : get_or h.works 0 0 ≡ get_or g.works (k % length g.works) 0 =
              ap (λ xs. get_or xs 0 0) v.works ∙ ap (λ m. get_or g.works m 0) (sym root) in
            let run : get_next_loop h ≡ ok (get_or g.works (k % length g.works) 0, f) =
              next-wraps h (omega arith) (omega arith) ∙ ap (λ x. ok (x, f)) entry in
            (
              record h { next = 1 },
              run,
              record {
                run = rw v.run (rw run refl);
                works = v.works;
                inside = omega arith;
                turn = turn_next k 0 (zero-mod (length g.works) ∙ sym root);
              },
            )
      ]

  turns : g.next ≡ 0 → (k : ℕ) → (h : EventloopEngineGroup) × IsTurn g k h
  turns e zero = (
    g,
    record {
      run = refl;
      works = refl;
      inside = omega arith;
      turn = ap (λ x. x % length g.works) e;
    },
  )
  turns e (suc k) = let (h, v) = turns e k in let (f, _, w) = next-IsTurn k h v in (f, w)

-- In a group that has workers and whose next one is the first, the call of GetNextLoop after `k`
-- calls returns worker number `k` modulo the number of workers; no call panics.
pub get_next_loop-turns :
    (g : EventloopEngineGroup)
    → 0 < length g.works
    → g.next ≡ 0
    → (k : ℕ)
    → (h f : EventloopEngineGroup) × (after_calls k g ≡ ok h)
      × (get_next_loop h ≡ ok (get_or g.works (k % length g.works) 0, f))
get_next_loop-turns g some e k =
    let (h, v) = turns g some e k in
    let (f, run, _) = next-IsTurn g some k h v in (h, f, v.run, run)
