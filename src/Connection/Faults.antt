-- ===== src/Connection/Faults.antt =====
-- tcp_conn.go: what goes wrong, for every state in which it does.
use muduo_go.Prelude.{
  ℕ, ◌+◌, ◌<◌, ◌≡◌, refl, ap, ◌∙◌, true, false, none, some, List, [], ◌∷◌, ◌++◌, pos, negsuc,
  length, Run, ok, panic, arith, append_assoc, ==_zero_of_pos, append-nil, ltb_ℤ-negsuc, ◌+ℤ◌,
  length-append, suc, +ℤ-back,
}
use muduo_go.Buffer.{readable_bytes, peek, advance}
use muduo_go.Buffer.Layout.{layout, readable_bytes-layout, peek-layout}
use muduo_go.Events.{poll_out}
use muduo_go.Channel.{handle_event, new_channel}
use muduo_go.Poller.{CtlOp}
use muduo_go.Poller.Registration.{Epoll}
use muduo_go.Connection.{
  Conn, connected, Callbacks, would_block, Written, async_write_later, conn_channel, is_writing,
  write, write_directly, queue_rest, handle_write, async_write, request_shutdown, run_task,
  connect_destroyed,
}

-- The result of a `unix.Write` that would block.
abbrev pub blocked : Written
blocked = record { n = negsuc 0; err = some would_block }

-- Moving the read index back by one makes the last consumed byte unread.
rewound :
    (p d f : List ℕ) (x : ℕ) → advance (negsuc 0) (layout (p ++ x ∷ []) d f) ≡ layout p (x ∷ d) f
unfolding advance
rewound p d f x = λ i. record { buf = bytes i; read_index = start i; write_index = end i }
  where
    bytes : (p ++ x ∷ []) ++ (d ++ f) ≡ p ++ ((x ∷ d) ++ f)
    bytes = append_assoc p (x ∷ []) (d ++ f)

    start : pos (length (p ++ x ∷ [])) +ℤ negsuc 0 ≡ pos (length p)
    start =
        ap (λ n. pos n +ℤ negsuc 0) {x = length (p ++ x ∷ [])} {y = suc (length p)}
          (omega (arith, length-append p (x ∷ [])))
        ∙ +ℤ-back (length p)

    end : length (p ++ x ∷ []) + length d ≡ length p + length (x ∷ d)
    end = omega (arith, length-append p (x ∷ []))

module _ {A K : Type 0} (ctl : CtlOp → ℕ → ℕ → K → K) (ch : ℕ)
    (callbacks : Callbacks (Conn A K)) where
  -- `Write` of a nonempty slice on a connected connection for which nothing waits panics, if the
  -- direct write would block and returns -1.
  pub write-would_block :
      (s : Conn A K) (p f buf : List ℕ)
      → s.state ≡ connected
      → is_writing ch s ≡ false
      → s.outbound ≡ layout p [] f
      → 0 < length buf
      → write ctl ch callbacks blocked buf s ≡ panic
  unfolding write write_directly queue_rest
  write-would_block s p f buf active off out h = rw (
    active,
    ==_zero_of_pos (length buf) h,
    off,
    ap readable_bytes out ∙ readable_bytes-layout p [] f,
    ltb_ℤ-negsuc,
  )

  -- `handleWrite`, if the write would block and returns -1, takes the last consumed byte for unread
  -- again, so that it is sent twice.
  pub handle_write-would_block :
      (s : Conn A K) (p d f : List ℕ) (x : ℕ)
      → is_writing ch s ≡ true
      → s.outbound ≡ layout (p ++ x ∷ []) d f
      → handle_write ctl ch callbacks blocked s ≡ ok (record s { outbound = layout p (x ∷ d) f })
  unfolding handle_write
  handle_write-would_block s p d f x on out = rw (
    on,
    ap peek out ∙ peek-layout (p ++ x ∷ []) d f,
    ap (advance (negsuc 0)) out ∙ rewound p d f x,
    readable_bytes-layout p (x ∷ d) f,
    append-nil s.wire,
    ==_zero_of_pos (length (x ∷ d)) (omega arith),
  )

  -- Bytes for which `AsyncWrite` returned no error are not written, if `ShutdownWrite` is called
  -- before the loop runs the task: the task changes nothing.
  pub async_write-shutdown :
      (s : Conn A K) (buf : List ℕ) (r : Written)
      → s.state ≡ connected
      → let (err, t) = async_write buf none s in
        (err ≡ none)
        × (run_task ctl ch callbacks (async_write_later buf none) r (request_shutdown t)
            ≡ ok (request_shutdown t))
  unfolding async_write request_shutdown run_task write
  async_write-shutdown s buf r active = ground arith

-- A channel as `NewTcpConn` makes it ignores that its descriptor is writable, so that `handleWrite`
-- never runs and what waits in the outbound buffer stays there.
pub handle_event-writable :
    {A S : Type 0} (run : A → S → Run S) (fd : ℕ) (handle_read : A) (s : S)
    → handle_event run (record (conn_channel fd handle_read) { revents = poll_out }) s ≡ ok s
unfolding handle_event conn_channel new_channel
handle_event-writable run fd handle_read s = refl

-- A connection on which no `onConn` was set panics when it is destroyed, in each state that
-- `connectDestroyed` allows.
pub connect_destroyed-no_callback :
    {A K : Type 0} (epoll : Epoll K) (ch : ℕ) (callbacks : Callbacks (Conn A K)) (s : Conn A K)
    → callbacks.on_conn ≡ none
    → connect_destroyed epoll.ctl ch callbacks s ≡ panic
unfolding connect_destroyed
connect_destroyed-no_callback epoll ch callbacks s unset = ground arith
