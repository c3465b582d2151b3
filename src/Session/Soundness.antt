-- ===== src/Session/Soundness.antt =====
-- session.go: every round of OnMsg leaves a sound session.
use mathlib.Core.Path.{subst}
use muduo_go.Prelude.{
  ℕ, zero, suc, ◌+◌, ◌*◌, ◌≡◌, refl, sym, ◌∙◌, Bool, true, false, Option, none, some, List,
  if◌then◌else◌, Run, ok, panic, ◌>>=◌, ◌+ℤ◌, pos, pos_part, ℤ, ltb_ℤ, Post, Post-bind, Post-any,
  Post-if, Post-assert,
}
use muduo_go.Text.{eq_bytes, bytes}
use muduo_go.Buffer.{Buffer, peek, search_bytes, readable_bytes, advance}
use muduo_go.Memcached.{
  Memcached, new_item, Item, slice_to, need_bytes, append_bytes, end_with_crlf, store,
}
use muduo_go.Session.{
  Session, SessionState, new_command, recv_value, discard_value, ascii, Call, shutdown_write, call,
  reset_request, is_none, is_cas, longest_key, new_session,
}
use muduo_go.Session.Requests.{is_fresh, process_request}
use muduo_go.Session.Messages.{
  is_receiving, is_discarding, one_round, choose_protocol, round_by, read_line, end_request,
  store_item, recv_item, recv_bytes, discard_bytes, finish_request, store_reply, is_done, avail_of,
  after_round, on_msg_loop, count_bytes, on_msg,
}
use muduo_go.Session.Invariant.{SoundBy, IsSound, IsServed, process_request-IsServed, replay-Kept}

-- What a round leaves.
abbrev pub IsReady : Session → Type 0
IsReady s = IsSound s × (s.protocol ≡ ascii)

-- What holds of the session that a loop returns, if it returns.
abbrev pub PostIf : Option (Run (Session × Buffer)) → Type 0
PostIf none = Unit
PostIf (some r) = Post r (λ x. IsReady x.0)

reset_request-SoundBy :
    (st : SessionState) (t : Session) → is_receiving st ≡ false → SoundBy st (reset_request t)
unfolding reset_request eq_bytes
reset_request-SoundBy new_command t h = refl
reset_request-SoundBy recv_value t h = absurd (cc)
reset_request-SoundBy discard_value t h = refl

state-reset_request :
    (t : Session) → ((reset_request t).state ≡ t.state) × ((reset_request t).protocol ≡ t.protocol)
unfolding reset_request
state-reset_request t = (refl, refl)

end_request-IsReady :
    (hash : List ℕ → ℕ) (writable : List Call → ℤ) (s : Session) (r : Bool × Session)
    → s.protocol ≡ ascii
    → IsServed s r
    → IsReady (end_request hash writable r)
unfolding reset_request
end_request-IsReady hash writable s (true, t) e (p, a) = (
  rw (state-reset_request t).0 (reset_request-SoundBy t.state t a),
  (state-reset_request t).1 ∙ p ∙ e,
)
end_request-IsReady hash writable s (false, t) e (p, (a, b)) = (rw a b, p ∙ e)

finish_request-IsReady : (t : Session) → t.protocol ≡ ascii → IsReady (finish_request t)
unfolding reset_request eq_bytes
finish_request-IsReady t e = (refl, e)

module _ (hash : List ℕ → ℕ) where
  store_item-IsReady :
      (it : Item) (s : Session) → s.protocol ≡ ascii → Post (store_item hash it s) IsReady
  unfolding store_item
  store_item-IsReady it s e = Post-any (end_with_crlf it) _ IsReady λ complete.
      Post-bind _ (λ t. ok (finish_request t)) (λ t. t.protocol ≡ ascii) IsReady
        (Post-if complete _ _ (λ t. t.protocol ≡ ascii)
          (Post-any (store hash it s.policy s.m) _ (λ t. t.protocol ≡ ascii)
            λ r.
              (replay-Kept (store_reply r.0.0 r.0.1 (is_cas s.policy))
                (record s { m = r.1 })).protocol
              ∙ e)
          ((replay-Kept (bytes "CLIENT_ERROR bad data chunk\r\n") s).protocol ∙ e))
        finish_request-IsReady

  recv_item-IsReady :
      (o : Option Item) (s : Session) (buf : Buffer)
      → s.state ≡ recv_value
      → s.protocol ≡ ascii
      → Post (recv_item hash o s buf) (λ r. IsReady r.0)
  recv_item-IsReady none s buf h e = tt
  recv_item-IsReady (some it) s buf h e =
      Post-any (peek buf) _ (λ r. IsReady r.0)
        λ unread.
          Post-any (slice_to (avail_of it buf) unread) _ (λ r. IsReady r.0)
            λ got.
              Post-any (append_bytes got it) _ (λ r. IsReady r.0)
                λ filled.
                  let t = record s { curr_item = some filled } in
                  Post-if (is_done (need_bytes filled)) _ _ (λ r. IsReady r.0)
                    (Post-bind (store_item hash filled t)
                      (λ u. ok (u, advance (avail_of it buf) buf)) IsReady (λ r. IsReady r.0)
                      (store_item-IsReady filled t e) (λ u k. k))
                    (rw h refl, e)

discard_bytes-IsReady :
    (s : Session) (buf : Buffer)
    → s.state ≡ discard_value
    → s.protocol ≡ ascii
    → Post (discard_bytes s buf) (λ r. IsReady r.0)
unfolding discard_bytes
discard_bytes-IsReady s buf h e =
    Post-assert (is_discarding s.state) _ (λ r. IsReady r.0)
      λ a.
        Post-assert (is_none s.curr_item) _ (λ r. IsReady r.0)
          λ empty.
            Post-if (ltb_ℤ (readable_bytes buf) (pos s.bytes_to_discard)) _ _ (λ r. IsReady r.0)
              (rw h empty, e) (finish_request-IsReady (record s { bytes_to_discard = 0 }) e)

module _ (hash : List ℕ → ℕ) (writable : List Call → ℤ) where
  read_line-IsReady :
      (s : Session) (buf : Buffer)
      → s.state ≡ new_command
      → is_fresh s ≡ true
      → s.protocol ≡ ascii
      → Post (read_line hash writable ascii s buf) (λ r. IsReady r.1)
  read_line-IsReady s buf h v e =
      Post-any (search_bytes (bytes "\r\n") buf) _ (λ r. IsReady r.1)
        λ search.
          Post-if (ltb_ℤ (pos 0) search) _ _ (λ r. IsReady r.1)
            (Post-any (peek buf) _ (λ r. IsReady r.1)
              λ unread.
                Post-any (slice_to search unread) _ (λ r. IsReady r.1)
                  λ line.
                    Post-bind (process_request hash writable line s)
                      (λ r. ok (true, end_request hash writable r, advance (search +ℤ pos 2) buf))
                      (IsServed s) (λ r. IsReady r.1)
                      (process_request-IsServed hash writable line s h)
                      λ r k. end_request-IsReady hash writable s r e k)
            (elim (ltb_ℤ (pos 1024) (readable_bytes buf))
              as (λ b. IsReady (if b then call shutdown_write s else s)) [
                | true ↦ (rw h v, e)
                | false ↦ (rw h v, e)
              ])

  round_by-IsReady :
      (st : SessionState) (s : Session) (buf : Buffer)
      → s.state ≡ st
      → SoundBy st s
      → s.protocol ≡ ascii
      → Post (round_by hash writable st s buf) (λ r. IsReady r.1)
  unfolding recv_bytes
  round_by-IsReady new_command s buf h v e =
      subst
        (λ p.
          Post
            (choose_protocol hash writable p s buf >>= λ t.
              read_line hash writable t.protocol t buf)
            (λ r. IsReady r.1))
        (sym e)
        (subst (λ p. Post (read_line hash writable p s buf) (λ r. IsReady r.1)) (sym e)
          (read_line-IsReady s buf h v e))
  round_by-IsReady recv_value s buf h v e =
      Post-bind (recv_bytes hash s buf) (λ r. ok (true, r.0, r.1)) (λ r. IsReady r.0)
        (λ r. IsReady r.1)
        (Post-assert (is_receiving s.state) (recv_item hash s.curr_item s buf) (λ r. IsReady r.0)
          λ a. recv_item-IsReady hash s.curr_item s buf h e)
        λ r k. k
  round_by-IsReady discard_value s buf h v e =
      Post-bind (discard_bytes s buf) (λ r. ok (true, r.0, r.1)) (λ r. IsReady r.0)
        (λ r. IsReady r.1) (discard_bytes-IsReady s buf h e) λ r k. k

  pub one_round-IsReady :
      (s : Session) (buf : Buffer)
      → IsReady s
      → Post (one_round hash writable s buf) (λ r. IsReady r.1)
  unfolding one_round
  one_round-IsReady s buf (v, e) = round_by-IsReady s.state s buf refl v e

  after_round-IsReady :
      (loop : Session → Buffer → Option (Run (Session × Buffer)))
      (r : Run (Bool × Session × Buffer))
      → ((s : Session) (buf : Buffer) → IsReady s → PostIf (loop s buf))
      → Post r (λ x. IsReady x.1)
      → PostIf (after_round hash writable loop r)
  after_round-IsReady loop panic k h = tt
  after_round-IsReady loop (ok (true, t, rest)) k h = k t rest h
  after_round-IsReady loop (ok (false, t, rest)) k h = h

  on_msg_loop-IsReady :
      (k : ℕ) (s : Session) (buf : Buffer) → IsReady s → PostIf (on_msg_loop hash writable k s buf)
  unfolding on_msg_loop
  on_msg_loop-IsReady zero s buf h = tt
  on_msg_loop-IsReady (suc k) s buf h =
      elim (ltb_ℤ (pos 0) (readable_bytes buf))
        as (λ b. PostIf (elim b [
          | true ↦
              after_round hash writable (on_msg_loop hash writable k)
                (one_round hash writable s buf)
          | false ↦ some (ok (s, buf))
        ])) [
          | true ↦
              after_round-IsReady (on_msg_loop hash writable k) (one_round hash writable s buf)
                (λ t rest g. on_msg_loop-IsReady k t rest g) (one_round-IsReady s buf h)
          | false ↦ h
        ]

SoundBy-bytes_read :
    (st : SessionState) (t : Session) (n : ℕ)
    → SoundBy st t
    → SoundBy st (record t { bytes_read = n })
SoundBy-bytes_read new_command t n h = h
SoundBy-bytes_read recv_value t n h = h
SoundBy-bytes_read discard_value t n h = h

count_bytes-IsReady :
    (hash : List ℕ → ℕ) (writable : List Call → ℤ) (i : ℤ) (o : Option (Run (Session × Buffer)))
    → PostIf o
    → PostIf (count_bytes hash writable i o)
count_bytes-IsReady hash writable i none h = tt
count_bytes-IsReady hash writable i (some panic) h = tt
count_bytes-IsReady hash writable i (some (ok (t, rest))) (h, e) =
    (SoundBy-bytes_read t.state t _ h, e)

-- A new session is sound, and its protocol is ASCII.
pub new_session-IsReady : (hash : List ℕ → ℕ) (m : Memcached) → Post (new_session hash m) IsReady
unfolding new_session eq_bytes
new_session-IsReady hash m =
    Post-any (new_item hash longest_key 0 (pos 0) (pos 2) 0) _ IsReady λ it. (refl, refl)

pub on_msg-IsReady :
    (hash : List ℕ → ℕ) (writable : List Call → ℤ) (s : Session) (buf : Buffer)
    → IsReady s
    → PostIf (on_msg hash writable s buf)
unfolding on_msg
on_msg-IsReady hash writable s buf v =
    count_bytes-IsReady hash writable (readable_bytes buf)
      (on_msg_loop hash writable (2 * pos_part (readable_bytes buf) + 2) s buf)
      (on_msg_loop-IsReady hash writable (2 * pos_part (readable_bytes buf) + 2) s buf v)
