-- ===== src/Session/Faults.antt =====
-- session.go: request lines that the session does not withstand, and a value that is too large.
use muduo_go.Prelude.{
  if◌then◌else◌, ℕ, ◌+◌, ◌≤◌, ◌<◌, ◌≡◌, refl, ap, ◌∙◌, Bool, true, false, not, some, List, [], ◌∷◌,
  Run, ok, panic, ◌%◌, ◌^◌, copy_at, ◌>>◌, assert, arith, le→ltb, ltb_ℤ, ltb_ℤ-pos, length, take,
  ◌-◌, ℤ, pos, pos_part, ◌+ℤ◌, append-nil,
}
use muduo_go.Buffer.{advance}
use muduo_go.Buffer.Layout.{layout, readable_bytes-layout}
use muduo_go.Buffer.Reading.{advance_within}
use muduo_go.Text.{eq_bytes, bytes, fields}
use muduo_go.Memcached.{reset_key, append_bytes, Item, delete}
use muduo_go.Session.{
  Session, Call, Header, new_command, discard_value, tokens_update, policy_of, is_invalid,
  do_update, do_delete, begin_update, replay, reset_request,
}
use muduo_go.Session.Requests.{is_fresh, ends_with_noreply, is_update, process_request, run_command}
use muduo_go.Session.Messages.{finish_request, discard_bytes}

assert-panic : (b : Bool) (r : Run (Bool × Session)) → r ≡ panic → (do assert b; r) ≡ panic
assert-panic true r e = e
assert-panic false r e = refl

tokens_update-short :
    (hash : List ℕ → ℕ) (tokens : List (List ℕ)) (s : Session)
    → length tokens < 4
    → tokens_update hash tokens s ≡ panic
tokens_update-short hash [] s h = refl
tokens_update-short hash (a ∷ []) s h = refl
tokens_update-short hash (a ∷ b ∷ []) s h = refl
tokens_update-short hash (a ∷ b ∷ c ∷ []) s h = refl
tokens_update-short hash (a ∷ b ∷ c ∷ d ∷ ts) s h = absurd (omega arith)

do_update-short :
    (hash : List ℕ → ℕ) (tokens : List (List ℕ)) (s : Session)
    → length tokens < 4
    → do_update hash tokens s ≡ panic
unfolding do_update
do_update-short hash tokens s h =
    assert-panic (not (is_invalid (policy_of s.command))) _
      (tokens_update-short hash tokens (record s { policy = policy_of s.command }) h)

-- The words of a request of which some are missing: an update with fewer than four behind the
-- command, and a deletion of one key.
pub data TooFew : List ℕ → List (List ℕ) → Type 0 where
  short_update :
      {command : List ℕ} {tokens : List (List ℕ)}
      → is_update command ≡ true
      → length tokens < 4
      → TooFew command tokens
  delete_one : {key : List ℕ} → length key ≤ 250 → TooFew (bytes "delete") (key ∷ [])

abbrev without_suffix : List ℕ → List ℕ
without_suffix buf = if ends_with_noreply buf then take (length buf - 8) buf else buf

run_command-panics :
    (hash : List ℕ → ℕ) (writable : List Call → ℤ) (command : List ℕ) (tokens : List (List ℕ))
    (s : Session)
    → TooFew command tokens
    → run_command hash writable tokens (record s { command = command }) ≡ panic
unfolding run_command do_delete eq_bytes
run_command-panics hash writable command tokens s (short_update update h) =
    rw update (do_update-short hash tokens (record s { command = command }) h)
run_command-panics hash writable _ _ s (delete_one {key} h) = rw (le→ltb 250 (length key) h) refl

-- A request line makes processRequest panic when its words, without ` noreply` at its end, are an
-- update command and fewer than four others, or `delete` and one key of at most 250 bytes.
pub process_request-panics :
    (hash : List ℕ → ℕ) (writable : List Call → ℤ) (buf command : List ℕ) (tokens : List (List ℕ))
    (s : Session)
    → is_fresh s ≡ true
    → fields (without_suffix buf) ≡ command ∷ tokens
    → TooFew command tokens
    → process_request hash writable buf s ≡ panic
unfolding process_request
process_request-panics hash writable buf command tokens s fresh words h = rw fresh (
    rw words (
      run_command-panics hash writable command tokens
        (record s {
          noreply = ends_with_noreply buf;
          req_processed = (s.req_processed + 1) % 2 ^ 64;
        })
        h))

advance-zero : (p d f : List ℕ) → advance (pos 0) (layout p d f) ≡ layout p d f
advance-zero p d f = advance_within 0 p d f (omega arith) ∙ ap (λ x. layout x d f) (append-nil p)

discard_bytes-none :
    (s : Session) (p d f : List ℕ)
    → s.state ≡ discard_value
    → (u : Session) × (discard_bytes (reset_request s) (layout p d f) ≡ ok (u, layout p d f))
      × (u.state ≡ new_command)
unfolding discard_bytes reset_request
discard_bytes-none s p d f e = (
  finish_request (record (reset_request s) { bytes_to_discard = 0 }),
  rw
      (
        e,
        readable_bytes-layout p d f,
        ltb_ℤ-pos,
        le→ltb (length d) 0 (omega arith),
        advance-zero p d f,
      )
      refl,
  refl,
)

abbrev too_large : List ℕ
too_large = bytes "SERVER_ERROR object too large for cache\r\n"

pub reset_key-ok :
    (hash : List ℕ → ℕ) (key : List ℕ) (it : Item) → (n : Item) × (reset_key hash key it ≡ ok n)
unfolding reset_key append_bytes
reset_key-ok hash key it = (
  record it {
    keylen = length key;
    recv_bytes = 0 + length key;
    contents = copy_at 0 it.contents key;
    hash = hash key;
  },
  rw (le→ltb (length it.contents) 0 (omega arith)) refl,
)

-- After the header of an update whose value is longer than a megabyte, the session is to discard
-- the value and the end of its line; but the reset at the end of the request clears the count, so
-- that the next round discards no byte and takes the value for a command.
pub begin_update-discards_nothing :
    (hash : List ℕ → ℕ) (key : List ℕ) (h : Header) (s : Session) (p d f : List ℕ)
    → ltb_ℤ (pos 1_048_576) h.count ≡ true
    → (t u : Session) × (begin_update hash key (some h) s ≡ ok (true, t))
      × (t.bytes_to_discard ≡ pos_part (h.count +ℤ pos 2))
      × (discard_bytes (reset_request t) (layout p d f) ≡ ok (u, layout p d f))
      × (u.state ≡ new_command)
unfolding begin_update
begin_update-discards_nothing hash key h s p d f large =
    let (n, e) = reset_key-ok hash key (replay too_large s).needle in
    let t = record (replay too_large s) {
      needle = n;
      m = (delete hash key (replay too_large s).m).1;
      bytes_to_discard = pos_part (h.count +ℤ pos 2);
      state = discard_value;
    } in
    let (u, run, done) = discard_bytes-none t p d f refl in
    (t, u, rw large (rw e refl), refl, run, done)
