-- ===== src/Connection/Queueing.antt =====
-- tcp_conn.go: what `Write` leaves to the outbound buffer, and that it then watches for writing.
use muduo_go.Prelude.{
  ℕ, ◌+◌, ◌-◌, ◌≤◌, ◌<◌, ◌≡◌, ◌≢◌, refl, ◌⊎◌, inl, inr, true, false, List, ◌++◌, pos, length, drop,
  ok, arith, ltb_ℤ-pos, le→leb, lt→ltb, le→ltb, length-drop, Bool-cases,
}
use muduo_go.Buffer.{Buffer, readable_bytes, peek, advance}
use muduo_go.Buffer
use muduo_go.Buffer.Layout.{layout}
use muduo_go.Buffer.Writing.{write_stores_all}
use muduo_go.Events.{wants_write, wants_write-with_write, with_write}
use muduo_go.Channel.{channel_new}
use muduo_go.Poller.{Poller, enable_writing, update_events}
use muduo_go.Poller.Registration.{Epoll, IsConsistent, update_events_keeps, next_index-ne}
use muduo_go.Connection.{Conn, Callbacks, is_writing, queue_rest}

-- The buffer takes `m` bytes more without dropping any (`write_stores_all`).
abbrev pub HasRoom : List ℕ → List ℕ → List ℕ → ℕ → Type 0
HasRoom p d f m = (m ≤ length p + length f) ⊎ (length d + length f < m)

module _ {A K : Type 0} (epoll : Epoll K) (ch : ℕ) where
  -- The channel is in the poller.
  pub record IsRegistered (p : Poller A K) : Type 0 where
    pub consistent : IsConsistent epoll p
    pub present : (p.channel ch).index ≢ channel_new

  pub update_lem :
      (p : Poller A K) (e : ℕ)
      → IsRegistered p
      → (q : Poller A K) × (update_events epoll.ctl e ch p ≡ ok q)
        × IsRegistered q
        × ((q.channel ch).events ≡ e)
  update_lem p e v =
      let (q, run, s, w) =
        update_events_keeps epoll p v.consistent ch e (λ h. absurd (v.present h)) in
      let ne = next_index-ne (p.channel ch).index e in
      (
        q,
        run,
        record { consistent = w; present = λ h. ground (arith, s.channels ch, ne) },
        ground (arith, s.channels ch),
      )

  enable_writing_lem :
      (p : Poller A K)
      → IsRegistered p
      → (q : Poller A K) × (enable_writing epoll.ctl ch p ≡ ok q)
        × IsRegistered q
        × (wants_write (q.channel ch).events ≡ true)
  unfolding enable_writing
  enable_writing_lem p v =
      let e = (p.channel ch).events in
      let (q, run, w, h) = update_lem p (with_write e) v in
      (q, run, w, rw h (wants_write-with_write e))

  -- `t` is `s` with `d` waiting in the outbound buffer.
  pub record Waits (d : List ℕ) (s t : Conn A K) : Type 0 where
    pub state : t.state ≡ s.state
    pub wire : t.wire ≡ s.wire
    pub before : List ℕ
    pub after : List ℕ
    pub outbound : t.outbound ≡ layout before d after
    pub registered : IsRegistered t.poller

module _ {A K : Type 0} (epoll : Epoll K) (ch : ℕ) (callbacks : Callbacks (Conn A K)) where
  pub queue_nothing :
      (s : Conn A K) (m : ℕ) (buf : List ℕ)
      → length buf ≤ m
      → queue_rest epoll.ctl ch callbacks (pos m) buf s ≡ ok s
  unfolding queue_rest
  queue_nothing s m buf h = rw (ltb_ℤ-pos, le→ltb m (length buf) h)

  module _ (s : Conn A K) (p d f : List ℕ) (out : s.outbound ≡ layout p d f)
      (v : IsRegistered epoll ch s.poller) (m : ℕ) (buf : List ℕ) where
    abbrev pub Queued : Type 0
    Queued =
        (t : Conn A K) × (queue_rest epoll.ctl ch callbacks (pos m) buf s ≡ ok t)
        × Waits epoll ch (d ++ drop m buf) s t
        × (is_writing ch t ≡ true)

    module _ (h : m < length buf) (p' f' : List ℕ)
        (stored : Buffer.write (drop m buf) (layout p d f)
          ≡ ok (length (drop m buf), layout p' (d ++ drop m buf) f')) where
      queue_writing : is_writing ch s ≡ true → Queued
      unfolding queue_rest
      queue_writing w = (
        record s { outbound = layout p' (d ++ drop m buf) f' },
        rw (
          ltb_ℤ-pos,
          lt→ltb m (length buf) h,
          le→leb m (length buf) (omega arith),
          out,
          stored,
          w,
        ),
        record {
          state = refl;
          wire = refl;
          before = p';
          after = f';
          outbound = refl;
          registered = v;
        },
        w,
      )

      queue_enabling : is_writing ch s ≡ false → Queued
      unfolding queue_rest
      queue_enabling w =
          let (q, run, reg, on) = enable_writing_lem epoll ch s.poller v in
          (
            record s { outbound = layout p' (d ++ drop m buf) f'; poller = q },
            rw (
              ltb_ℤ-pos,
              lt→ltb m (length buf) h,
              le→leb m (length buf) (omega arith),
              out,
              stored,
              w,
              run,
            ),
            record {
              state = refl;
              wire = refl;
              before = p';
              after = f';
              outbound = refl;
              registered = reg;
            },
            on,
          )

    pub queue_some : m < length buf → HasRoom p d f (length buf - m) → Queued
    queue_some h room =
        let (p', f', stored) = write_stores_all p d f (drop m buf) (rw length-drop room) in
        elim (Bool-cases (is_writing ch s)) [
          | inl w ↦ queue_writing h p' f' stored w
          | inr w ↦ queue_enabling h p' f' stored w
        ]
