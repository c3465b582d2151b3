-- ===== src/Session/Rounds.antt =====
-- session.go: every round of OnMsg takes bytes, or goes on in a state that will.
use mathlib.Core.Path.{subst}
use muduo_go.Prelude.{
  ℕ, ◌+◌, ◌*◌, ◌≤◌, ◌<◌, ◌≡◌, ◌≢◌, refl, sym, ap, ◌∙◌, true, Option, none, some, List, [], ◌++◌,
  Run, ok, ◌>>=◌, arith, ◌+ℤ◌, +ℤ-pos, length, pos, negsuc, ℤ, ltb_ℤ, ltb_ℤ-pos, Post, Post-bind,
  Post-any, Post-eq, Post-if_eq, Post-assert,
}
use muduo_go.Text.{bytes}
use muduo_go.Buffer.{Buffer, peek, search_bytes, readable_bytes, advance}
use muduo_go.Buffer.Layout.{layout, peek-layout, readable_bytes-layout}
use muduo_go.Buffer.Reading.{reset_lem}
use muduo_go.Memcached.{end_with_crlf, Item, slice_to, need_bytes, append_bytes}
use muduo_go.Session.{
  Session, SessionState, new_command, recv_value, discard_value, ascii, Call, is_none,
}
use muduo_go.Session.Requests.{process_request}
use muduo_go.Session.Messages.{
  is_receiving, is_discarding, choose_protocol, round_by, read_line, end_request, store_item,
  end_recv, recv_item, recv_bytes, discard_bytes, finish_request, avail_of, is_done,
}
use muduo_go.Session.Weights.{
  IsShorter, advanced, avail_zero, done_zero, found_within, nothing_left, slice_to-within, weight,
}

module _ (hash : List ℕ → ℕ) where
  state-store_item :
      (it : Item) (s : Session) → Post (store_item hash it s) (λ t. t.state ≡ new_command)
  unfolding store_item
  state-store_item it s =
      Post-any (end_with_crlf it) _ (λ (t : Session). t.state ≡ new_command)
        λ complete.
          Post-any _ (λ t. ok (finish_request t)) (λ (t : Session). t.state ≡ new_command) λ t. refl

  -- The rest of the round, when `n` bytes were taken.
  after_fill :
      (p d f : List ℕ) (n : ℕ) (filled : Item) (t : Session)
      → t.state ≡ recv_value
      → n ≤ length d
      → (n ≡ 0 → need_bytes filled ≡ pos 0)
      → Post
          (end_recv hash filled (pos n) t (layout p d f))
          (λ r. IsShorter (2 * length d + 1) r.0 r.1)
  after_fill p d f n filled t h l z =
      Post-if_eq (is_done (need_bytes filled)) _ _ (λ r. IsShorter (2 * length d + 1) r.0 r.1)
        (λ done.
          Post-bind (store_item hash filled t) (λ u. ok (u, advance (pos n) (layout p d f)))
            (λ u. u.state ≡ new_command) (λ r. IsShorter (2 * length d + 1) r.0 r.1)
            (state-store_item filled t)
            λ u e. advanced (2 * length d + 1) n u p d f l (rw e (omega arith)))
        (λ more.
          let some_taken : n ≢ 0 = λ e. done_zero (need_bytes filled) more (z e) in
          advanced (2 * length d + 1) n t p d f l (rw h (omega arith)))

  module _ (p d f : List ℕ) (some_left : 0 < length d) where
    recv_item-IsShorter :
        (o : Option Item) (s : Session)
        → s.state ≡ recv_value
        → Post (recv_item hash o s (layout p d f)) (λ r. IsShorter (2 * length d + 1) r.0 r.1)
    recv_item-IsShorter none s h = tt
    recv_item-IsShorter (some it) s h = rw (peek-layout p d f) (
        Post-eq (slice_to (avail_of it (layout p d f)) d) _
          (λ r. IsShorter (2 * length d + 1) r.0 r.1)
          λ got cut.
            Post-eq (append_bytes got it) _ (λ r. IsShorter (2 * length d + 1) r.0 r.1)
              λ filled put.
                let (n, z, l, m) = slice_to-within (avail_of it (layout p d f)) d got cut in
                let t = record s { curr_item = some filled } in
                let idle : n ≡ 0 → need_bytes filled ≡ pos 0 = λ e.
                  nothing_left it filled got (avail_zero it p d f some_left (z ∙ ap pos e)) (m ∙ e)
                    put in
                subst
                  (λ a.
                    Post (end_recv hash filled a t (layout p d f))
                      (λ r. IsShorter (2 * length d + 1) r.0 r.1))
                  (sym z) (after_fill p d f n filled t h l idle))

    discard_bytes-IsShorter :
        (s : Session)
        → s.state ≡ discard_value
        → Post (discard_bytes s (layout p d f)) (λ r. IsShorter (2 * length d + 1) r.0 r.1)
    unfolding discard_bytes
    discard_bytes-IsShorter s h =
        Post-assert (is_discarding s.state) _ (λ r. IsShorter (2 * length d + 1) r.0 r.1)
          λ a.
            Post-assert (is_none s.curr_item) _ (λ r. IsShorter (2 * length d + 1) r.0 r.1)
              λ b.
                Post-if_eq (ltb_ℤ (readable_bytes (layout p d f)) (pos s.bytes_to_discard)) _ _
                  (λ r. IsShorter (2 * length d + 1) r.0 r.1)
                  (λ l. record {
                    consumed = [];
                    unread = [];
                    free = p ++ (d ++ f);
                    same = reset_lem p d f;
                    less = rw h (omega arith);
                  })
                  (λ l.
                    let inside : s.bytes_to_discard ≤ length d = ground (
                      arith,
                      ap (λ z. ltb_ℤ z (pos s.bytes_to_discard)) (readable_bytes-layout p d f),
                      ltb_ℤ-pos (length d) s.bytes_to_discard,
                      l,
                    ) in
                    advanced (2 * length d + 1) s.bytes_to_discard
                      (finish_request (record s { bytes_to_discard = 0 })) p d f inside
                      (omega arith))

pub weight-le : (st : SessionState) → weight st ≤ 1
weight-le new_command = omega arith
weight-le recv_value = omega arith
weight-le discard_value = omega arith

positive : (z : ℤ) → ltb_ℤ (pos 0) z ≡ true → (i : ℕ) × (z ≡ pos i)
unfolding ltb_ℤ
positive (pos i) h = (i, refl)
positive (negsuc i) h = ground (arith, h)

module _ (hash : List ℕ → ℕ) (writable : List Call → ℤ) where
  module _ (p d f : List ℕ) (some_left : 0 < length d) where
    line_taken :
        (search : ℤ) (s : Session)
        → search_bytes (bytes "\r\n") (layout p d f) ≡ ok search
        → ltb_ℤ (pos 0) search ≡ true
        → IsShorter (2 * length d) s (advance (search +ℤ pos 2) (layout p d f))
    line_taken search s found h =
        let (i, e) = positive search h in
        let l = found_within p d f i (found ∙ ap ok e) in
        rw e
          (rw +ℤ-pos (advanced (2 * length d) (i + 2) s p d f l (omega (arith, weight-le s.state))))

    read_line-IsShorter :
        (s : Session)
        → Post
            (read_line hash writable ascii s (layout p d f))
            (λ r. r.0 ≡ true → IsShorter (2 * length d) r.1 r.2)
    read_line-IsShorter s =
        Post-eq (search_bytes (bytes "\r\n") (layout p d f)) _
          (λ r. r.0 ≡ true → IsShorter (2 * length d) r.1 r.2)
          λ search found.
            Post-if_eq (ltb_ℤ (pos 0) search) _ _
              (λ r. r.0 ≡ true → IsShorter (2 * length d) r.1 r.2)
              (λ h.
                Post-any (peek (layout p d f)) _
                  (λ r. r.0 ≡ true → IsShorter (2 * length d) r.1 r.2)
                  λ unread.
                    Post-any (slice_to search unread) _
                      (λ r. r.0 ≡ true → IsShorter (2 * length d) r.1 r.2)
                      λ line.
                        Post-any (process_request hash writable line s)
                          (λ r. ok (
                            true,
                            end_request hash writable r,
                            advance (search +ℤ pos 2) (layout p d f),
                          ))
                          (λ r. r.0 ≡ true → IsShorter (2 * length d) r.1 r.2)
                          λ r e. line_taken search (end_request hash writable r) found h)
              (λ h e. absurd (cc))

    pub round_by-IsShorter :
        (st : SessionState) (s : Session)
        → s.state ≡ st
        → s.protocol ≡ ascii
        → Post
            (round_by hash writable st s (layout p d f))
            (λ r. r.0 ≡ true → IsShorter (2 * length d + weight st) r.1 r.2)
    unfolding recv_bytes
    round_by-IsShorter new_command s h e =
        subst
          (λ q.
            Post
              (choose_protocol hash writable q s (layout p d f) >>= λ t.
                read_line hash writable t.protocol t (layout p d f))
              (λ r. r.0 ≡ true → IsShorter (2 * length d + 0) r.1 r.2))
          (sym e)
          (subst
            (λ q.
              Post (read_line hash writable q s (layout p d f))
                (λ r. r.0 ≡ true → IsShorter (2 * length d + 0) r.1 r.2))
            (sym e)
            (let none_more : 2 * length d ≡ 2 * length d + 0 = omega arith in
              subst
                (λ n.
                  Post (read_line hash writable ascii s (layout p d f))
                    (λ r. r.0 ≡ true → IsShorter n r.1 r.2))
                none_more (read_line-IsShorter s)))
    round_by-IsShorter recv_value s h e =
        Post-bind (recv_bytes hash s (layout p d f)) (λ r. ok (true, r.0, r.1))
          (λ r. IsShorter (2 * length d + 1) r.0 r.1)
          (λ r. r.0 ≡ true → IsShorter (2 * length d + 1) r.1 r.2)
          (Post-assert (is_receiving s.state) (recv_item hash s.curr_item s (layout p d f))
            (λ r. IsShorter (2 * length d + 1) r.0 r.1)
            λ a. recv_item-IsShorter hash p d f some_left s.curr_item s h)
          λ r k g. k
    round_by-IsShorter discard_value s h e =
        Post-bind (discard_bytes s (layout p d f)) (λ r. ok (true, r.0, r.1))
          (λ r. IsShorter (2 * length d + 1) r.0 r.1)
          (λ r. r.0 ≡ true → IsShorter (2 * length d + 1) r.1 r.2)
          (discard_bytes-IsShorter hash p d f some_left s h) λ r k g. k

abbrev pub Ends : Option (Run (Session × Buffer)) → Type 0
Ends o = (r : Run (Session × Buffer)) × (o ≡ some r)
