-- ===== src/Connector/Tests.antt =====
-- connector.go: the theorems on a connector whose first attempt is refused.
use muduo_go.Prelude.{count, ℕ, ◌+◌, ◌≡◌, ◌≢◌, refl, [], ◌∷◌, Option, some, panic}
use muduo_go.Connector.{
  Connector, econnrefused, einprogress, new_connector, start, connect0, connect_failed, connecting,
  retry, request_start, handle_write, handle_error, initial_delay,
}
use muduo_go.Connector.Accounting.{held_by}
use muduo_go.Connector.Channels.{enabled_of, removed_of}
use muduo_go.Connector.Delay.{retries, retry_delay-retries}
use muduo_go.Connector.Sockets.{Reach, here, next, do_request_start, do_start, sockets_accounted}

-- The first socket, 7, is refused, and the second, 8, is being connected.
abbrev trying : Connector
trying = start 8 (some einprogress) (start 7 (some econnrefused) (request_start new_connector))

refused : (trying.closed ≡ 7 ∷ []) × (trying.timers ≡ initial_delay ∷ []) × (trying.ch ≡ some 8)
unfolding start connect0 connect_failed connecting retry request_start new_connector
refused = (refl, refl, refl)

trying-Reach : Reach new_connector trying
unfolding start connect0 connect_failed connecting retry request_start new_connector
trying-Reach =
    next (next (next here do_request_start) (do_start 7 (some econnrefused) (λ h. cc) refl))
      (do_start 8 (some einprogress) (λ h. cc) refl)

sockets_accounted_example :
    ((fd : ℕ)
      → count fd trying.opened
        ≡ count fd trying.closed + count fd trying.handed + held_by trying.state trying.ch fd)
    × ((fd : ℕ)
        → count fd (enabled_of trying.channel_calls)
          ≡ count fd (removed_of trying.channel_calls) + held_by trying.state trying.ch fd)
    × ((value : ℕ) (err : Option ℕ) → handle_write value err trying ≢ panic)
    × (handle_error trying ≢ panic)
sockets_accounted_example = sockets_accounted trying-Reach

abbrev asked : Connector
asked = request_start new_connector

retry_delay-retries_example : (retries 7 3 asked).retry_delay ≡ 30_000_000_000
unfolding request_start new_connector
retry_delay-retries_example = retry_delay-retries 7 3 asked refl refl
