-- ===== src/Connection/Flushing.antt =====
-- tcp_conn.go: `handleWrite` hands the waiting bytes to the kernel, and the write side is shut down
-- only behind them.
use muduo_go.Prelude.{
  ℕ, ◌-◌, ◌≤◌, ◌<◌, ◌≡◌, refl, ap, ◌∙◌, inl, inr, true, false, none, List, ◌++◌, pos, length, take,
  drop, if◌then◌else◌, ok, arith, append_assoc, length-drop, take-append-drop, drop_of_length-le,
  take_of_length-le, ==_zero_of_pos,
}
use native.Mathlib.Decide.{dec_lt}
use muduo_go.Buffer.{readable_bytes, peek, advance}
use muduo_go.Buffer.Layout.{layout, readable_bytes-layout, peek-layout}
use muduo_go.Buffer.Reading.{advance_within}
use muduo_go.Events.{wants_write, wants_write-without_write, without_write}
use muduo_go.Poller.{Poller, disable_writing}
use muduo_go.Poller.Registration.{Epoll}
use muduo_go.Connection.{
  Conn, disconnecting, is_disconnecting, Callbacks, is_writing, handle_write, write_finished,
  shutdown_write, complete_if_set,
}
use muduo_go.Connection.Queueing.{IsRegistered, update_lem}
use muduo_go.Connection.Stream.{IsSending, IsSending-same}

module _ {A K : Type 0} (epoll : Epoll K) (ch : ℕ) where
  disable_writing_lem :
      (p : Poller A K)
      → IsRegistered epoll ch p
      → (q : Poller A K) × (disable_writing epoll.ctl ch p ≡ ok q)
        × IsRegistered epoll ch q
        × (wants_write (q.channel ch).events ≡ false)
  unfolding disable_writing
  disable_writing_lem p v =
      let e = (p.channel ch).events in
      let (q, run, w, h) = update_lem epoll ch p (without_write e) v in
      (q, run, w, rw h (wants_write-without_write e))

module _ {A K : Type 0} (epoll : Epoll K) (ch : ℕ) (callbacks : Callbacks (Conn A K)) where
  -- The state that the last part of `handleWrite` ends in, where no byte waits.
  abbrev finished : Conn A K → Conn A K
  finished s =
      let u = complete_if_set callbacks.on_write_complete s in
      if is_disconnecting u.state then shutdown_write ch u else u

  finished-same :
      (s : Conn A K)
      → ((finished s).outbound ≡ s.outbound)
        × ((finished s).wire ≡ s.wire)
        × ((finished s).poller ≡ s.poller)
        × ((finished s).state ≡ s.state)
  unfolding shutdown_write
  finished-same s = ground arith

  shut_now :
      (s : Conn A K) → is_writing ch s ≡ false → s.state ≡ disconnecting → (finished s).shut ≡ true
  unfolding shutdown_write
  shut_now s off closing = ground arith

  module _ (all : List ℕ) (s : Conn A K) (v : IsSending epoll ch all s) (k : ℕ)
      (on : is_writing ch s ≡ true) (fits : k ≤ length v.unread) where
    abbrev flushed : Conn A K
    flushed = record s {
      outbound = layout (v.before ++ take k v.unread) (drop k v.unread) v.after;
      wire = s.wire ++ take k v.unread;
    }

    flushed_stream : flushed.wire ++ drop k v.unread ≡ all
    flushed_stream =
        append_assoc s.wire (take k v.unread) (drop k v.unread)
        ∙ ap (λ l. s.wire ++ l) (take-append-drop k v.unread)
        ∙ v.stream

    flushed-IsSending : IsSending epoll ch all flushed
    flushed-IsSending = record {
      before = v.before ++ take k v.unread;
      unread = drop k v.unread;
      after = v.after;
      outbound = refl;
      stream = flushed_stream;
      registered = v.registered;
      watched = inr on;
    }

    advanced : advance (pos k) s.outbound ≡ flushed.outbound
    advanced = ap (advance (pos k)) v.outbound ∙ advance_within k v.before v.unread v.after fits

    readable : readable_bytes flushed.outbound ≡ pos (length v.unread - k)
    readable =
        readable_bytes-layout (v.before ++ take k v.unread) (drop k v.unread) v.after
        ∙ ap pos (length-drop k v.unread)

    peeked : peek s.outbound ≡ ok v.unread
    peeked = ap peek v.outbound ∙ peek-layout v.before v.unread v.after

    abbrev pub Flushed : Type 0
    Flushed =
        (t : Conn A K) × (handle_write epoll.ctl ch callbacks (record { n = pos k; err = none }) s
          ≡ ok t)
        × IsSending epoll ch all t
        × (t.wire ≡ s.wire ++ take k v.unread)
        × (t.state ≡ s.state)

    flush_some : k < length v.unread → Flushed
    unfolding handle_write
    flush_some h = (
      flushed,
      rw (on, peeked, advanced, readable, ==_zero_of_pos (length v.unread - k) (omega arith)),
      flushed-IsSending,
      refl,
      refl,
    )

    empty_now : length v.unread ≤ k → readable_bytes flushed.outbound ≡ pos 0
    empty_now h = readable ∙ ap pos (omega arith)

    flush_all : length v.unread ≤ k → Flushed
    unfolding handle_write write_finished
    flush_all h =
        let (q, run, reg, off) = disable_writing_lem epoll ch s.poller v.registered in
        let drained = record flushed { poller = q } in
        let same = finished-same drained in
        let w : IsSending epoll ch all drained = record {
          before = v.before ++ take k v.unread;
          unread = drop k v.unread;
          after = v.after;
          outbound = refl;
          stream = flushed_stream;
          registered = reg;
          watched = inl (drop_of_length-le k v.unread h);
        } in
        (
          finished drained,
          rw (on, peeked, advanced, empty_now h, run),
          IsSending-same epoll ch all drained (finished drained) same.0 same.1 same.2 w,
          same.1,
          same.3,
        )

  -- Every byte waits no longer.
  module _ (all : List ℕ) (s : Conn A K) (v : IsSending epoll ch all s)
      (on : is_writing ch s ≡ true) (closing : s.state ≡ disconnecting) where
    flush_shut :
        (t : Conn A K) × (handle_write epoll.ctl ch callbacks
            (record { n = pos (length v.unread); err = none })
            s
          ≡ ok t)
        × (t.wire ≡ all)
        × (t.shut ≡ true)
        × (t.state ≡ disconnecting)
    unfolding handle_write write_finished
    flush_shut =
        let n = length v.unread in
        let (q, run, reg, off) = disable_writing_lem epoll ch s.poller v.registered in
        let drained = record (flushed all s v n on (omega arith)) { poller = q } in
        let same = finished-same drained in
        (
          finished drained,
          rw (
            on,
            peeked all s v n on (omega arith),
            advanced all s v n on (omega arith),
            empty_now all s v n on (omega arith) (omega arith),
            run,
          ),
          same.1 ∙ ap (λ l. s.wire ++ l) (take_of_length-le n v.unread (omega arith)) ∙ v.stream,
          shut_now drained off closing,
          same.3 ∙ closing,
        )

-- When the loop reports a connection that has accepted the bytes `all` as writable and `unix.Write`
-- takes `k` of the waiting bytes, `handleWrite` does not panic, the connection still has accepted
-- exactly `all`, and the kernel has got the first `k` waiting bytes on top of what it had.
pub handle_write_keeps_stream :
    {A K : Type 0} (epoll : Epoll K) (ch : ℕ) (callbacks : Callbacks (Conn A K)) (all : List ℕ)
    (s : Conn A K) (k : ℕ) (v : IsSending epoll ch all s)
    → is_writing ch s ≡ true
    → k ≤ length v.unread
    → (t : Conn A K) × (handle_write epoll.ctl ch callbacks (record { n = pos k; err = none }) s
        ≡ ok t)
      × IsSending epoll ch all t
      × (t.wire ≡ s.wire ++ take k v.unread)
      × (t.state ≡ s.state)
handle_write_keeps_stream epoll ch callbacks all s k v on fits = elim (dec_lt k (length v.unread)) [
  | yes h ↦ flush_some epoll ch callbacks all s v k on fits h
  | no h ↦ flush_all epoll ch callbacks all s v k on fits (omega arith)
]

-- When `ShutdownWrite` was called on a connection that had accepted the bytes `all` and some still
-- wait, the call of `handleWrite` in which the kernel takes the last waiting bytes shuts the write
-- side down, and by then the kernel has got all of `all`.
pub shutdown_after_flush :
    {A K : Type 0} (epoll : Epoll K) (ch : ℕ) (callbacks : Callbacks (Conn A K)) (all : List ℕ)
    (s : Conn A K) (v : IsSending epoll ch all s)
    → is_writing ch s ≡ true
    → s.state ≡ disconnecting
    → (shutdown_write ch s ≡ s)
      × (t : Conn A K) × (handle_write epoll.ctl ch callbacks
            (record { n = pos (length v.unread); err = none })
            s
          ≡ ok t)
      × (t.wire ≡ all)
      × (t.shut ≡ true)
unfolding shutdown_write
shutdown_after_flush epoll ch callbacks all s v on closing =
    let (t, run, wire, shut, _) = flush_shut epoll ch callbacks all s v on closing in
    (rw on, t, run, wire, shut)
