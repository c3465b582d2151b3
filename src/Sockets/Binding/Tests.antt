-- ===== src/Sockets/Binding/Tests.antt =====
-- acceptor.go: a server on the address `:2007`, where bind(2) takes IPv4 addresses only.
use muduo_go.Prelude.{ℕ, ◌≡◌, refl, Bool, true, false, Option, none, some, List, [], panic}
use muduo_go.Buffer.{is_prefix}
use muduo_go.Text.{bytes}
use muduo_go.Sockets.{Sockaddr, inet4, inet6, unix_path, TcpAddr, Interfaces}
use muduo_go.Sockets.Binding.{cut, new_acceptor, new_acceptor-panics}

abbrev no_interface : Interfaces
no_interface = record { by_index = λ i. none; by_name = λ name. none }

abbrev any_host : List ℕ → List ℕ → Option TcpAddr
any_host network addr = some (record { ip = []; port = 2007; zone = [] })

abbrev is_inet4 : Sockaddr → Bool
is_inet4 (inet4 ip port) = true
is_inet4 (inet6 ip port zone) = false
is_inet4 (unix_path name) = false

plain : cut (bytes "://") (bytes ":2007") ≡ none
unfolding is_prefix
plain = refl

new_acceptor-panics_example :
    new_acceptor no_interface any_host (λ s. s) is_inet4 (some 7) (bytes ":2007") ≡ panic
new_acceptor-panics_example =
    new_acceptor-panics no_interface any_host (λ s. s) is_inet4 2007 7 [] (bytes ":2007")
      (λ ip p z. refl) plain refl
