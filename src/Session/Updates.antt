-- ===== src/Session/Updates.antt =====
-- session.go: an update whose bytes begin with the key.
use mathlib.Core.Path.{subst}
use muduo_go.Prelude.{
  of_ok, false, ◌==◌, ap, Bool-cases, inl, inr, Option, none, ℕ, ◌+◌, ◌-◌, ◌≡◌, refl, sym, ◌∙◌,
  Bool, true, some, List, [], ◌∷◌, ◌++◌, if◌then◌else◌, ok, ◌>>=◌, arith, leb, leb_ℤ-pos, le→ltb,
  le→leb, length, drop, replicate, length-replicate, length-append, take-append, drop-append,
  append_assoc, append-nil, drop_of_length-le, pos,
}
use muduo_go.Buffer.Layout.{layout, peek-layout, readable_bytes-layout}
use muduo_go.Buffer.Reading.{advance_within}
use muduo_go.Memcached.{
  UpdatePolicy, invalid, set, add, replace, append, prepend, cas, is_some, Item, at_index, new_item,
  end_with_crlf, store, Memcached,
}
use muduo_go.Memcached.Cache.{
  Entry, Cache, IsComplete, IsPlain, Represents, spec_store, crlf, accepts, spec_reply,
}
use muduo_go.Memcached.Storing.{store_refines}
use muduo_go.Session.{Session, new_command, recv_value, async_write, replay, reset_request, is_cas}
use muduo_go.Session.Messages.{
  is_receiving, store_item, recv_item, recv_bytes, store_reply, finish_request,
}
use muduo_go.Session.Values.{filled_with, new_item-ok, append_bytes-filled, need_bytes-filled}

at_index-append : (xs ys : List ℕ) (y : ℕ) → at_index (length xs) (xs ++ (y ∷ ys)) ≡ ok y
at_index-append [] ys y = refl
at_index-append (x ∷ xs) ys y = at_index-append xs ys y

module _ (hash : List ℕ → ℕ) (key : List ℕ) (e : Entry) where
  abbrev body : List ℕ
  body = key ++ (e.value ++ crlf)

  -- The item when all bytes have come.
  abbrev whole : Item
  whole = filled_with hash key e.flags e.exptime (length e.value + 2) e.cas_unique body []

  length-body : length body ≡ length key + (length e.value + 2)
  length-body = omega (arith, length-append key (e.value ++ crlf), length-append e.value crlf)

  whole-IsComplete : IsComplete whole key e
  whole-IsComplete = record {
    contents = append-nil body;
    keylen = refl;
    valuelen = refl;
    flags = refl;
    exptime = refl;
    cas_unique = refl;
  }

  end_with_crlf-whole : end_with_crlf whole ≡ ok true
  unfolding end_with_crlf
  end_with_crlf-whole =
      let text = key ++ e.value in
      let same : body ++ [] ≡ text ++ crlf =
        append-nil body ∙ sym (append_assoc key e.value crlf) in
      let size : length body ≡ length text + 2 =
        omega (arith, length-body, length-append key e.value) in
      let cr : length text + 2 - 2 ≡ length text = omega arith in
      let lf : length text + 2 - 1 ≡ length (text ++ 13 ∷ []) =
        omega (arith, length-append text (13 ∷ [])) in
      rw
        (
          same,
          size,
          le→ltb (length text + 2) 2 (omega arith),
          cr,
          at_index-append text (10 ∷ []) 13,
        )
        (rw lf (
          rw (sym (append_assoc text (13 ∷ []) (10 ∷ [])))
            (rw (at_index-append (text ++ 13 ∷ []) [] 10) refl)))

  store_item-whole :
      (s : Session) (b x : Bool) (m : Memcached)
      → store hash whole s.policy s.m ≡ ok ((b, x), m)
      → store_item hash whole s
        ≡ ok (finish_request (replay (store_reply b x (is_cas s.policy)) (record s { m = m })))
  unfolding store_item
  store_item-whole s b x m run = rw end_with_crlf-whole (rw run refl)

  -- recvValue when all bytes of the item are there.
  recv_item-all :
      (s : Session) (p more f : List ℕ)
      → recv_item hash
          (some (
            filled_with hash key e.flags e.exptime
              (length e.value + 2)
              e.cas_unique
              []
              (replicate (length key + (length e.value + 2)) 0)))
          s
          (layout p (body ++ more) f)
        ≡ (do
          u ← store_item hash whole (record s { curr_item = some whole })
          ok (u, layout (p ++ body) more f))
  recv_item-all s p more f =
      let n = length e.value + 2 in
      let zeros : List ℕ = replicate (length key + n) 0 in
      let size : length zeros ≡ length body =
        length-replicate {A = ℕ} (length key + n) 0 ∙ sym length-body in
      let enough : leb (length zeros) (length (body ++ more)) ≡ true =
        le→leb (length zeros) (length (body ++ more)) (omega (arith, length-append body more)) in
      let need =
        need_bytes-filled hash key e.flags e.exptime n e.cas_unique [] zeros
          (omega (arith, length-body)) in
      let left : drop (length body) zeros ≡ [] =
        drop_of_length-le (length body) zeros (omega arith) in
      let full =
        append_bytes-filled hash key e.flags e.exptime n e.cas_unique [] body zeros (omega arith) in
      let done =
        need_bytes-filled hash key e.flags e.exptime n e.cas_unique body []
          (omega (arith, length-body)) in
      rw (need, readable_bytes-layout p (body ++ more) f, peek-layout p (body ++ more) f, leb_ℤ-pos)
        (rw
          (
            enough,
            size,
            le→leb (length body) (length (body ++ more)) (omega (arith, length-append body more)),
            take-append body more,
          )
          (rw full (
            rw left (
              rw done (
                rw
                  (
                    advance_within (length body) p (body ++ more) f
                        (omega (arith, length-append body more)),
                    take-append body more,
                    drop-append body more,
                  )
                  refl)))))

is_receiving-by : (s : Session) → s.state ≡ recv_value → is_receiving s.state ≡ true
is_receiving-by s e = rw e refl

pub calls-replay :
    (msg : List ℕ) (s : Session)
    → (replay msg s).calls ≡ (if s.noreply then s.calls else s.calls ++ async_write msg ∷ [])
unfolding replay
calls-replay msg s = ground arith

m-replay : (msg : List ℕ) (s : Session) → (replay msg s).m ≡ s.m
unfolding replay
m-replay msg s = ground arith

m-finish : (s : Session) → (finish_request s).m ≡ s.m
unfolding reset_request
m-finish s = refl

calls-finish : (s : Session) → (finish_request s).calls ≡ s.calls
unfolding reset_request
calls-finish s = refl

-- The reply of the session to what the map says.
abbrev Answers : UpdatePolicy → ℕ → Option Entry → Type 0
Answers policy u p =
    store_reply (accepts policy u p) (is_some p) (is_cas policy) ≡ spec_reply policy u p

answers : (policy : UpdatePolicy) (u : ℕ) (p : Option Entry) → IsPlain policy p → Answers policy u p
answers invalid u p l = elim l [ ]
answers set u p l = refl
answers add u none l = refl
answers add u (some y) l = refl
answers replace u none l = refl
answers replace u (some y) l = refl
answers append u none l = refl
answers append u (some y) l = elim l [ ]
answers prepend u none l = refl
answers prepend u (some y) l = elim l [ ]
answers cas u none l = refl
answers cas u (some y) l = elim (Bool-cases (y.cas_unique == u)) [
  | inl h ↦ rw h refl
  | inr h ↦ rw h refl
]

successes :
    (b : Bool) (policy : UpdatePolicy) (key : List ℕ) (e : Entry) (c : Cache)
    → accepts policy e.cas_unique (c.entries key) ≡ b
    → (spec_store policy key e c).0 ≡ (b, is_some (c.entries key))
successes true policy key e c h = rw h refl
successes false policy key e c h = rw h refl

spec-reply :
    (policy : UpdatePolicy) (key : List ℕ) (e : Entry) (c : Cache)
    → IsPlain policy (c.entries key)
    → store_reply (spec_store policy key e c).0.0 (spec_store policy key e c).0.1 (is_cas policy)
      ≡ spec_reply policy e.cas_unique (c.entries key)
spec-reply policy key e c l =
    ap (λ r. store_reply r.0 r.1 (is_cas policy))
      (successes (accepts policy e.cas_unique (c.entries key)) policy key e c refl)
    ∙ answers policy e.cas_unique (c.entries key) l

-- In a session that receives an item made for a key, on slots that show a map, with a valid policy
-- that is not to append or to prepend to a value that is there, when the unread bytes begin with
-- the key, a value of the promised length and the end of the line, recvValue reads exactly those
-- bytes, waits for the next command, leaves slots that show the map after the store, and unless the
-- client asked for no reply sends one reply: STORED where the policy accepts, EXISTS for a cas on a
-- value with another unique number, NOT_FOUND for a cas on a key that is not bound, and else
-- NOT_STORED.
pub recv_bytes-stores :
    (hash : List ℕ → ℕ) (key : List ℕ) (e : Entry) (s : Session) (it : Item) (c : Cache)
    (p more f : List ℕ)
    → s.state ≡ recv_value
    → s.curr_item ≡ some it
    → new_item hash key e.flags e.exptime (pos (length e.value + 2)) e.cas_unique ≡ ok it
    → Represents hash s.m c
    → IsPlain s.policy (c.entries key)
    → (t : Session) × (recv_bytes hash s (layout p ((key ++ (e.value ++ crlf)) ++ more) f)
        ≡ ok (t, layout (p ++ (key ++ (e.value ++ crlf))) more f))
      × (t.state ≡ new_command)
      × Represents hash t.m (spec_store s.policy key e c).1
      × (t.calls ≡ (
          if s.noreply
          then s.calls
          else s.calls ++ async_write (spec_reply s.policy e.cas_unique (c.entries key)) ∷ []))
unfolding recv_bytes
recv_bytes-stores hash key e s it c p more f receiving item made r l =
    let filled = whole hash key e in
    let start = record s { curr_item = some filled } in
    let same =
      of_ok it
        (filled_with hash key e.flags e.exptime (length e.value + 2) e.cas_unique []
          (replicate (length key + (length e.value + 2)) 0))
        (sym made ∙ new_item-ok hash key e.flags e.exptime (length e.value + 2) e.cas_unique) in
    let (m, run, w) =
      store_refines hash s.policy filled key e s.m c r (whole-IsComplete hash key e) refl l in
    let reply =
      store_reply (spec_store s.policy key e c).0.0 (spec_store s.policy key e c).0.1
        (is_cas s.policy) in
    let stored = record start { m = m } in
    (
      finish_request (replay reply stored),
      rw (is_receiving-by s receiving, item, same)
          (recv_item-all hash key e s p more f
            ∙ rw
                (store_item-whole hash key e start (spec_store s.policy key e c).0.0
                  (spec_store s.policy key e c).0.1 m run)
                refl),
      refl,
      subst (λ n. Represents hash n (spec_store s.policy key e c).1)
          (sym (m-finish (replay reply stored) ∙ m-replay reply stored)) w,
      calls-finish (replay reply stored)
          ∙ calls-replay reply stored
          ∙ ap (λ b. if s.noreply then s.calls else s.calls ++ async_write b ∷ [])
              (spec-reply s.policy key e c l),
    )
