-- ===== src/Proxy/Serve/Stopped.antt =====
-- src/proxy/mod.rs: how the loop of `serve` ends.
use zero_trust_proxy.Common.{String, ◌≡◌, refl, Option, some, List, [], ◌∷◌, ◌++◌, map, arith}
use mathlib.Core.List.{append-nil}
use zero_trust_proxy.Error.{Result, ok, err}
use zero_trust_proxy.Proxy.Server.{ProxyServer}
use zero_trust_proxy.Proxy.Tls.{Rustls}
use zero_trust_proxy.Proxy.Serve.{Sockets, Task, open_connection, accept_loop, listen, serve}

module _ {File Cert Key Addr Listener Acceptor Stream TlsStream : Type 0}
    (rustls : Rustls File Cert Key Acceptor)
    (sockets : Sockets Addr Listener Acceptor Stream TlsStream) where
  -- The tasks of accepted connections.
  abbrev pub spawned : Option Acceptor → List (Stream × Addr) → List (Task Addr Stream TlsStream)
  spawned tls_acceptor arrivals =
      map (λ a. (open_connection rustls sockets tls_acceptor a.0, a.1)) arrivals

  accept_loop-append :
      (tls_acceptor : Option Acceptor) (arrivals : List (Stream × Addr))
      (rest : List (Result String (Stream × Addr)))
      → let later = accept_loop rustls sockets tls_acceptor rest in
        accept_loop rustls sockets tls_acceptor (map (λ a. ok a) arrivals ++ rest)
        ≡ (spawned tls_acceptor arrivals ++ later.0, later.1)
  unfolding accept_loop
  accept_loop-append tls_acceptor [] rest = refl
  accept_loop-append tls_acceptor ((stream, remote) ∷ arrivals) rest =
      ground (arith, accept_loop-append tls_acceptor arrivals rest)

  -- While the listener answers with connections, each gets a task; its first error ends the server
  -- with that error, whatever it would have answered later.
  pub serve_stopped :
      (server : ProxyServer) (addr : Addr) (listener : Listener) (tls_acceptor : Option Acceptor)
      (arrivals : List (Stream × Addr)) (e : String) (rest : List (Result String (Stream × Addr)))
      → listen rustls sockets server addr ≡ ok (listener, tls_acceptor)
      → sockets.accepted listener ≡ map (λ a. ok a) arrivals ++ err e ∷ rest
      → serve rustls sockets server addr ≡ (spawned tls_acceptor arrivals, some e)
  unfolding serve accept_loop
  serve_stopped server addr listener tls_acceptor arrivals e rest ready answers =
      rw (ready, answers, accept_loop-append tls_acceptor arrivals (err e ∷ rest), append-nil) refl
