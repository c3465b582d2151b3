-- ===== src/Session/Invariant.antt =====
-- session.go: the state of a session between two messages, under which its assertions hold.
use muduo_go.Prelude.{
  ℕ, ◌+◌, ◌-◌, ◌%◌, ◌^◌, ◌≡◌, refl, ◌∙◌, Bool, true, false, not, ◌&&◌, Option, none, some, List, [],
  ◌∷◌, if◌then◌else◌, Run, ok, ◌>>=◌, arith, ltb, leb, ◌+ℤ◌, length, take, pos, negsuc, ℤ, ltb_ℤ,
  Post, Post-bind, Post-mono, Post-any, Post-if, Post-assert,
}
use muduo_go.Text.{eq_bytes, bytes, fields, parse_uint, parse_int}
use muduo_go.Buffer
use muduo_go.Buffer.{Buffer, next}
use muduo_go.Memcached.{new_item, at_index, Item, get, reset_key, delete}
use muduo_go.Session.{
  Session, SessionState, new_command, recv_value, discard_value, Call, write_now, shutdown_write,
  call, replay, Header, header, begin_update, do_update, do_delete, delete_key, is_none, bad_format,
  policy_of, adjusted, is_invalid, is_cas, unique_of, update_with, tokens_update,
}
use muduo_go.Session.Requests.{
  is_fresh, process_request, run_command, run_tokens, get_keys, output_found, finish_get, do_get,
  output, ends_with_noreply, is_update,
}
use muduo_go.Session.Messages.{is_receiving}

-- What holds between two rounds, by the state.
abbrev pub SoundBy : SessionState → Session → Type 0
SoundBy new_command s = is_fresh s ≡ true
SoundBy recv_value s = is_none s.curr_item ≡ false
SoundBy discard_value s = is_none s.curr_item ≡ true

abbrev pub IsSound : Session → Type 0
IsSound s = SoundBy s.state s

-- Only what the requests that answer at once change may differ.
pub record Kept (s t : Session) : Type 0 where
  pub state : t.state ≡ s.state
  pub protocol : t.protocol ≡ s.protocol
  pub curr_item : t.curr_item ≡ s.curr_item

Kept-refl : (s : Session) → Kept s s
Kept-refl s = record { state = refl; protocol = refl; curr_item = refl }

Kept-trans : {s t u : Session} → Kept s t → Kept t u → Kept s u
Kept-trans a b = record {
  state = b.state ∙ a.state;
  protocol = b.protocol ∙ a.protocol;
  curr_item = b.curr_item ∙ a.curr_item;
}

pub replay-Kept : (msg : List ℕ) (s : Session) → Kept s (replay msg s)
unfolding replay
replay-Kept msg s = record {
  state = ground arith;
  protocol = ground arith;
  curr_item = ground arith;
}

module _ (hash : List ℕ → ℕ) where
  delete_key-Kept : (key : List ℕ) (s : Session) → Post (delete_key hash key s) (Kept s)
  delete_key-Kept key s = Post-any (reset_key hash key s.needle) _ (Kept s) λ n.
      Kept-trans {s = s} {t = record s { needle = n; m = (delete hash key s.m).1 }}
        (record { state = refl; protocol = refl; curr_item = refl })
        (replay-Kept _ (record s { needle = n; m = (delete hash key s.m).1 }))

  do_delete-Kept : (tokens : List (List ℕ)) (s : Session) → Post (do_delete hash tokens s) (Kept s)
  unfolding do_delete
  do_delete-Kept tokens s = Post-any (at_index 0 tokens) _ (Kept s) λ key.
      Post-if (ltb 250 (length key)) _ _ (Kept s) (replay-Kept bad_format s) (
        Post-if (leb (length tokens) 1) _ _ (Kept s)
          (Post-any (at_index 1 tokens) _ (Kept s) λ t.
            Post-if (eq_bytes t (bytes "0")) _ _ (Kept s) (delete_key-Kept key s) (replay-Kept _ s))
          (delete_key-Kept key s))

  output_found-Kept :
      (o : Option Item) (b : Bool) (s : Session) → Post (output_found hash o b s) (Kept s)
  output_found-Kept none b s = Kept-refl s
  output_found-Kept (some it) b s =
      Post-any (output it b s.output_buffer) _ (Kept s)
        λ out. record { state = refl; protocol = refl; curr_item = refl }

  get_keys-Kept :
      (b : Bool) (keys : List (List ℕ)) (s : Session)
      → Post (get_keys hash b keys s) (λ r. Kept s r.1)
  unfolding get_keys
  get_keys-Kept b [] s = Kept-refl s
  get_keys-Kept b (key ∷ keys) s =
      Post-if (leb (length key) 250) _ _ (λ r. Kept s r.1)
        (Post-any (reset_key hash key s.needle) _ (λ r. Kept s r.1)
          λ n.
            Post-bind (output_found hash (get hash key s.m) b (record s { needle = n })) _
              (Kept (record s { needle = n })) (λ r. Kept s r.1)
              (output_found-Kept (get hash key s.m) b (record s { needle = n }))
              λ t k.
                Post-mono (get_keys hash b keys t) (λ r. Kept t r.1) (λ r. Kept s r.1)
                  (get_keys-Kept b keys t)
                  (λ r l.
                    Kept-trans {s = s} {t = t} {u = r.1}
                      (record { state = k.state; protocol = k.protocol; curr_item = k.curr_item })
                      l))
        (replay-Kept bad_format s)

-- A request that is over leaves no value to come; one that is not waits for the value of an item.
abbrev pub IsAnswered : Bool × Session → Type 0
IsAnswered (true, t) = is_receiving t.state ≡ false
IsAnswered (false, t) = (t.state ≡ recv_value) × (is_none t.curr_item ≡ false)

abbrev pub IsServed : Session → Bool × Session → Type 0
IsServed s r = (r.1.protocol ≡ s.protocol) × IsAnswered r

Kept-IsServed : (s t : Session) → s.state ≡ new_command → Kept s t → IsServed s (true, t)
Kept-IsServed s t h k = (k.protocol, rw (k.state ∙ h) refl)

module _ (hash : List ℕ → ℕ) where
  begin_update-IsServed :
      (key : List ℕ) (h : Option Header) (s : Session)
      → s.state ≡ new_command
      → Post (begin_update hash key h s) (IsServed s)
  unfolding begin_update
  begin_update-IsServed key none s e =
      Kept-IsServed s (replay bad_format s) e (replay-Kept bad_format s)
  begin_update-IsServed key (some h) s e =
      Post-if (ltb_ℤ (pos 1_048_576) h.count) _ _ (IsServed s)
        (Post-any (reset_key hash key _) _ (IsServed s) λ n. ((replay-Kept _ s).protocol, refl))
        (Post-any
          (new_item hash key h.flags (adjusted s.m.stime h.exptime) (h.count +ℤ pos 2) h.unique) _
          (IsServed s) λ it. (refl, (refl, refl)))

  do_update-IsServed :
      (tokens : List (List ℕ)) (s : Session)
      → s.state ≡ new_command
      → Post (do_update hash tokens s) (IsServed s)
  unfolding do_update
  do_update-IsServed tokens s e =
      let t = record s { policy = policy_of s.command } in
      Post-assert (not (is_invalid (policy_of s.command))) (tokens_update hash tokens t)
        (IsServed s)
        λ valid. Post-any (at_index 0 tokens) _ (IsServed s) λ key.
          Post-any (at_index 1 tokens) _ (IsServed s) λ flags.
            Post-any (at_index 2 tokens) _ (IsServed s) λ exptime.
              Post-any (at_index 3 tokens)
                (λ count. update_with hash tokens key flags exptime count t) (IsServed s)
                λ count.
                  let f = parse_uint 32 flags in
                  let x = parse_int 64 exptime in
                  let b = parse_int 32 count in
                  let good =
                    leb (length key) 250 && not (is_none f) && not (is_none x) && not (is_none b) in
                  Post-any (unique_of (good && is_cas t.policy) tokens)
                    (λ u. begin_update hash key (header good f x b u) t) (IsServed s)
                    λ u. begin_update-IsServed key (header good f x b u) t e

module _ (hash : List ℕ → ℕ) (writable : List Call → ℤ) where
  finish_get-Kept : (s : Session) → Post (finish_get hash writable s) (Kept s)
  unfolding finish_get
  finish_get-Kept s = Post-any (Buffer.write (bytes "END\r\n") s.output_buffer) _ (Kept s) λ w.
      Post-any _
        (λ small. next (negsuc 0) small >>= λ r.
          ok (call (write_now r.0) (record s { output_buffer = r.1 })))
        (Kept s)
        λ small.
          Post-any (next (negsuc 0) small) _ (Kept s)
            λ r. record { state = refl; protocol = refl; curr_item = refl }

  do_get-Kept :
      (b : Bool) (keys : List (List ℕ)) (s : Session)
      → Post (do_get hash writable b keys s) (Kept s)
  unfolding do_get
  do_get-Kept b keys s =
      Post-bind (get_keys hash b keys s) _ (λ r. Kept s r.1) (Kept s) (get_keys-Kept hash b keys s)
        λ r k.
          Post-if r.0 (finish_get hash writable r.1) (ok r.1) (Kept s)
            (Post-mono (finish_get hash writable r.1) (Kept r.1) (Kept s) (finish_get-Kept r.1)
              (λ t l. Kept-trans k l))
            k

  -- A request that only keeps the session, and is over then.
  answered :
      (r : Run Session) (s : Session)
      → s.state ≡ new_command
      → Post r (Kept s)
      → Post (r >>= λ t. ok (true, t)) (IsServed s)
  answered r s e h =
      Post-bind r (λ t. ok (true, t)) (Kept s) (IsServed s) h λ t k. Kept-IsServed s t e k

  run_command-IsServed :
      (tokens : List (List ℕ)) (s : Session)
      → s.state ≡ new_command
      → Post (run_command hash writable tokens s) (IsServed s)
  unfolding run_command
  run_command-IsServed tokens s e =
      let c = s.command in
      Post-if (is_update c) _ _ (IsServed s) (do_update-IsServed hash tokens s e) (
        Post-if (eq_bytes c (bytes "get")) _ _ (IsServed s)
          (answered (do_get hash writable false tokens s) s e (do_get-Kept false tokens s))
          (Post-if (eq_bytes c (bytes "gets")) _ _ (IsServed s)
            (answered (do_get hash writable true tokens s) s e (do_get-Kept true tokens s))
            (Post-if (eq_bytes c (bytes "delete")) _ _ (IsServed s)
              (answered (do_delete hash tokens s) s e (do_delete-Kept hash tokens s))
              (Post-if (eq_bytes c (bytes "version")) _ _ (IsServed s)
                (Kept-IsServed s _ e (replay-Kept (bytes "VERSION 0.0.1 muduo\r\n") s))
                (Post-if (eq_bytes c (bytes "quit")) _ _ (IsServed s)
                  (Kept-IsServed s (call shutdown_write s) e
                    (record { state = refl; protocol = refl; curr_item = refl }))
                  (Post-if (eq_bytes c (bytes "shutdown")) _ _ (IsServed s)
                    (Kept-IsServed s (call shutdown_write s) e
                      (record { state = refl; protocol = refl; curr_item = refl }))
                    (Kept-IsServed s _ e (replay-Kept (bytes "ERROR\r\n") s))))))))

  run_tokens-IsServed :
      (tokens : List (List ℕ)) (s : Session)
      → s.state ≡ new_command
      → Post (run_tokens hash writable tokens s) (IsServed s)
  run_tokens-IsServed [] s e = Kept-IsServed s _ e (replay-Kept (bytes "ERROR\r\n") s)
  run_tokens-IsServed (c ∷ tokens) s e = run_command-IsServed tokens (record s { command = c }) e

  pub process_request-IsServed :
      (line : List ℕ) (s : Session)
      → s.state ≡ new_command
      → Post (process_request hash writable line s) (IsServed s)
  unfolding process_request
  process_request-IsServed line s e =
      let silent = ends_with_noreply line in
      let rest = if silent then take (length line - 8) line else line in
      let t = record s { req_processed = (s.req_processed + 1) % 2 ^ 64; noreply = silent } in
      Post-assert (is_fresh s) (run_tokens hash writable (fields rest) t) (IsServed s)
        λ fresh. run_tokens-IsServed (fields rest) t e
