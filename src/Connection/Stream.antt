-- ===== src/Connection/Stream.antt =====
-- tcp_conn.go: the bytes that a connection sends. What the kernel has taken, followed by what waits
-- in the outbound buffer, is the concatenation of the slices that were written.
use mathlib.Core.Path.{subst}
use muduo_go.Prelude.{
  ==_zero_of_pos, ℕ, ◌-◌, ◌≤◌, ◌<◌, ◌≡◌, refl, sym, ap, ◌∙◌, ◌⊎◌, inl, inr, true, false, Option,
  none, some, List, [], ◌∷◌, ◌++◌, pos, length, take, drop, if◌then◌else◌, Run, ok, arith,
  append_assoc, append-nil, ltb_ℤ-pos, lt→ltb, le→ltb, take-append-drop, Bool-cases,
  drop_of_length-le,
}
use native.Mathlib.Decide.{dec_lt}
use muduo_go.Buffer.{readable_bytes}
use muduo_go.Buffer.Layout.{layout, readable_bytes-layout}
use muduo_go.Poller.Registration.{Epoll}
use muduo_go.Connection.{
  Conn, connected, Callbacks, is_writing, write_directly, write, complete_if_set,
}
use muduo_go.Connection.Queueing.{HasRoom, IsRegistered, Waits, queue_some, queue_nothing}

length-zero : (l : List ℕ) → length l ≡ 0 → l ≡ []
length-zero [] h = refl
length-zero (x ∷ l) h = absurd (omega arith)

module _ {A K : Type 0} (epoll : Epoll K) (ch : ℕ) where
  -- The connection has accepted the bytes `all` for sending: the kernel has the first of them, the
  -- others wait in the outbound buffer, and while any wait, the channel is watched for writing.
  pub record IsSending (all : List ℕ) (s : Conn A K) : Type 0 where
    pub before : List ℕ
    pub unread : List ℕ
    pub after : List ℕ
    pub outbound : s.outbound ≡ layout before unread after
    pub stream : s.wire ++ unread ≡ all
    pub registered : IsRegistered epoll ch s.poller
    pub watched : (unread ≡ []) ⊎ (is_writing ch s ≡ true)

  pub IsSending-same :
      (all : List ℕ) (s t : Conn A K)
      → t.outbound ≡ s.outbound
      → t.wire ≡ s.wire
      → t.poller ≡ s.poller
      → IsSending all s
      → IsSending all t
  IsSending-same all s t o w p v = record {
    before = v.before;
    unread = v.unread;
    after = v.after;
    outbound = o ∙ v.outbound;
    stream = rw w v.stream;
    registered = rw p v.registered;
    watched = rw p v.watched;
  }

  Waits-IsSending :
      (all : List ℕ) (d : List ℕ) (s t : Conn A K)
      → Waits epoll ch d s t
      → s.wire ++ d ≡ all
      → (d ≡ []) ⊎ (is_writing ch t ≡ true)
      → IsSending all t
  Waits-IsSending all d s t w e on = record {
    before = w.before;
    unread = d;
    after = w.after;
    outbound = w.outbound;
    stream = ap (λ l. l ++ d) w.wire ∙ e;
    registered = w.registered;
    watched = on;
  }

module _ {A K : Type 0} (epoll : Epoll K) (ch : ℕ) where
  pub complete-IsSending :
      (o : Option (Conn A K → Run (Conn A K))) (all : List ℕ) (s : Conn A K)
      → IsSending epoll ch all s
      → IsSending epoll ch all (complete_if_set o s)
  complete-IsSending none all s v = v
  complete-IsSending (some cb) all s v =
      IsSending-same epoll ch all s (complete_if_set (some cb) s) refl refl refl v

pub state-complete_if_set :
    {A K : Type 0} (o : Option (Conn A K → Run (Conn A K))) (s : Conn A K)
    → (complete_if_set o s).state ≡ s.state
state-complete_if_set none s = refl
state-complete_if_set (some _) s = refl

module _ {A K : Type 0} (epoll : Epoll K) (ch : ℕ) (callbacks : Callbacks (Conn A K)) where
  -- How many bytes `Write` puts into the outbound buffer, if a direct write takes `k` of `n`.
  abbrev pub leftover : Conn A K → ℕ → ℕ → ℕ
  leftover s k n = if is_writing ch s then n else n - k

  module _ (all buf : List ℕ) (s : Conn A K) (v : IsSending epoll ch all s) (k : ℕ)
      (active : s.state ≡ connected) where
    abbrev pub Extended : Type 0
    Extended =
        (sent : ℕ) × (t : Conn A K) × (write epoll.ctl ch callbacks
            (record { n = pos k; err = none }) buf s
          ≡ ok ((pos sent, none), t))
        × IsSending epoll ch (all ++ buf) t
        × (t.state ≡ s.state)

    write_nothing : length buf ≡ 0 → Extended
    unfolding write
    write_nothing h =
        (0, s, ground (arith, active, h), rw (length-zero buf h, append-nil all) v, refl)

    -- Where bytes wait already, all of `buf` waits behind them.
    write_behind :
        is_writing ch s ≡ true
        → 0 < length buf
        → HasRoom v.before v.unread v.after (length buf)
        → Extended
    unfolding write
    write_behind w h room =
        let (t, run, q, on) =
          queue_some epoll ch callbacks s v.before v.unread v.after v.outbound v.registered 0 buf h
            (subst (HasRoom v.before v.unread v.after) (omega arith) room) in
        (
          0,
          t,
          ground (arith, active, w, run, h),
          Waits-IsSending epoll ch (all ++ buf) (v.unread ++ buf) s t q
              (sym (append_assoc s.wire v.unread buf) ∙ ap (λ l. l ++ buf) v.stream) (inr on),
          q.state,
        )

    module _ (w : is_writing ch s ≡ false) (pending : 0 < length buf) where
      nothing_waits : v.unread ≡ []
      nothing_waits = elim v.watched [ inl e ↦ e | inr on ↦ absurd (cc) ]

      -- The state after a direct write.
      abbrev written : Conn A K
      written = record s { wire = s.wire ++ take k buf }

      nothing_readable : readable_bytes s.outbound ≡ pos 0
      nothing_readable =
          ap readable_bytes v.outbound
          ∙ readable_bytes-layout v.before v.unread v.after
          ∙ ap (λ l. pos (length l)) nothing_waits

      direct :
          write epoll.ctl ch callbacks (record { n = pos k; err = none }) buf s
          ≡ write_directly epoll.ctl ch callbacks (record { n = pos k; err = none }) buf s
      unfolding write
      direct = rw (active, ==_zero_of_pos (length buf) pending, w, nothing_readable)

      whole : (s.wire ++ take k buf) ++ (v.unread ++ drop k buf) ≡ all ++ buf
      whole =
          rw (nothing_waits, append_assoc s.wire (take k buf) (drop k buf), take-append-drop k buf)
            (ap (λ l. l ++ buf)
              (sym (append-nil s.wire) ∙ ap (λ l. s.wire ++ l) (sym nothing_waits) ∙ v.stream))

      write_partial : k < length buf → HasRoom v.before v.unread v.after (length buf - k) → Extended
      unfolding write_directly
      write_partial h room =
          let (t, run, q, on) =
            queue_some epoll ch callbacks written v.before v.unread v.after v.outbound v.registered
              k buf h room in
          (
            k,
            t,
            direct ∙ rw (ltb_ℤ-pos, lt→ltb k (length buf) h, run),
            Waits-IsSending epoll ch (all ++ buf) (v.unread ++ drop k buf) written t q whole
                (inr on),
            q.state,
          )

      written-IsSending : length buf ≤ k → IsSending epoll ch (all ++ buf) written
      written-IsSending h = record {
        before = v.before;
        unread = v.unread;
        after = v.after;
        outbound = v.outbound;
        stream = rw (drop_of_length-le k buf h, append-nil v.unread) at whole;
        registered = v.registered;
        watched = inl nothing_waits;
      }

      write_whole : length buf ≤ k → Extended
      unfolding write_directly
      write_whole h =
          let t = complete_if_set callbacks.on_write_complete written in
          (
            k,
            t,
            direct
                ∙ rw (
                  ltb_ℤ-pos,
                  le→ltb k (length buf) h,
                  queue_nothing epoll ch callbacks t k buf h,
                ),
            complete-IsSending epoll ch callbacks.on_write_complete (all ++ buf) written
                (written-IsSending h),
            state-complete_if_set callbacks.on_write_complete written,
          )

    write_active : HasRoom v.before v.unread v.after (leftover s k (length buf)) → Extended
    write_active room = elim (dec_lt 0 (length buf)) [
      | no h ↦ write_nothing (omega arith)
      | yes h ↦ elim (Bool-cases (is_writing ch s)) [
        | inl w ↦ write_behind w h (rw w at room)
        | inr w ↦ elim (dec_lt k (length buf)) [
          | yes part ↦ write_partial w h part (rw w at room)
          | no full ↦ write_whole w h (omega arith)
        ]
      ]
    ]

-- A connection that has accepted the bytes `all` takes the bytes `buf` by `Write`, if it is
-- connected, the direct write (if it comes to one) takes `k` bytes and gives no error, and the
-- outbound buffer has room for the others: `Write` returns no error, the state of the connection
-- stays, and the connection has then accepted `all ++ buf`, of which the kernel has the first bytes
-- and the others wait, with the channel watched for writing while any wait.
pub write_extends_stream :
    {A K : Type 0} (epoll : Epoll K) (ch : ℕ) (callbacks : Callbacks (Conn A K)) (all buf : List ℕ)
    (s : Conn A K) (k : ℕ) (v : IsSending epoll ch all s)
    → s.state ≡ connected
    → HasRoom v.before v.unread v.after (leftover epoll ch callbacks s k (length buf))
    → (sent : ℕ) × (t : Conn A K) × (write epoll.ctl ch callbacks
          (record { n = pos k; err = none })
          buf
          s
        ≡ ok ((pos sent, none), t))
      × IsSending epoll ch (all ++ buf) t
      × (t.state ≡ s.state)
write_extends_stream epoll ch callbacks all buf s k v active room =
    write_active epoll ch callbacks all buf s v k active room
