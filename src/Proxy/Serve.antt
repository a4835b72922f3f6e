-- ===== src/Proxy/Serve.antt =====
-- src/proxy/mod.rs: `serve` and `serve_connection`. What the listener accepts is the list of its
-- answers so far; each connection has a task of its own, and within it the requests come one after
-- the other. The crate hyper, which reads the requests of a connection, is a parameter.
pub mod Encrypted
pub mod Stopped
use zero_trust_proxy.Common.{String, Option, none, some, List, [], ◌∷◌}
use zero_trust_proxy.Error.{Result, ok, err, ◌>>=◌}
use zero_trust_proxy.World.{World}
use zero_trust_proxy.Risk.{IpAddr}
use zero_trust_proxy.Proxy.Server.{Platform, Request, ProxyServer}
use zero_trust_proxy.Proxy.Tls.{Rustls, build_tls_acceptor}
use zero_trust_proxy.Proxy.Upstream.{Response, HttpClient}
use zero_trust_proxy.Proxy.Dispatch.{Drawn, handle_request}

-- The listening socket and the handshake.
pub record Sockets (Addr Listener Acceptor Stream TlsStream : Type 0) : Type 0 where
  pub bind : Addr → Result String Listener
  pub accepted : Listener → List (Result String (Stream × Addr))
  pub accept : Acceptor → Stream → Result String TlsStream

-- What a task serves.
pub data Connection (Stream TlsStream : Type 0) : Type 0 where
  encrypted : TlsStream → Connection Stream TlsStream
  plain : Stream → Connection Stream TlsStream

-- A task, with no connection if the handshake has failed.
abbrev pub Task : (Addr Stream TlsStream : Type 0) → Type 0
Task Addr Stream TlsStream = Option (Connection Stream TlsStream) × Addr

module _ {File Cert Key Addr Listener Acceptor Stream TlsStream : Type 0}
    (rustls : Rustls File Cert Key Acceptor)
    (sockets : Sockets Addr Listener Acceptor Stream TlsStream) where
  abbrev shaken : Result String TlsStream → Option (Connection Stream TlsStream)
  shaken (ok stream) = some (Connection.encrypted stream)
  shaken (err e) = none

  -- The body of a spawned task.
  unfoldable pub open_connection : Option Acceptor → Stream → Option (Connection Stream TlsStream)
  open_connection (some acceptor) stream = shaken (sockets.accept acceptor stream)
  open_connection none stream = some (Connection.plain stream)

  -- The tasks of the loop, and the error that ends it, if there has been one.
  unfoldable pub accept_loop :
      Option Acceptor
      → List (Result String (Stream × Addr))
      → List (Task Addr Stream TlsStream) × Option String
  accept_loop tls_acceptor [] = ([], none)
  accept_loop tls_acceptor (err e ∷ rest) = ([], some e)
  accept_loop tls_acceptor (ok (stream, remote_addr) ∷ rest) =
      let (tasks, ended) = accept_loop tls_acceptor rest in
      ((open_connection tls_acceptor stream, remote_addr) ∷ tasks, ended)

  unfoldable pub listen : ProxyServer → Addr → Result String (Listener × Option Acceptor)
  listen server addr = do
    listener ← sockets.bind addr
    tls_acceptor ← build_tls_acceptor rustls server.config.server
    ok (listener, tls_acceptor)

  abbrev started :
      Result String (Listener × Option Acceptor) → List (Task Addr Stream TlsStream) × Option String
  started (err e) = ([], some e)
  started (ok (listener, tls_acceptor)) = accept_loop tls_acceptor (sockets.accepted listener)

  unfoldable pub serve : ProxyServer → Addr → List (Task Addr Stream TlsStream) × Option String
  serve server addr = started (listen server addr)

module _ {Store F Backend : Type 0} (p : Platform Store F) (client : HttpClient Backend)
    (server : ProxyServer) where
  -- The requests of a connection, each with what is drawn at random for it.
  unfoldable pub serve_connection :
      IpAddr
      → List (Request × Drawn)
      → World Store
      → Backend
      → List Response × World Store × Backend
  serve_connection remote_addr [] w backend = ([], w, backend)
  serve_connection remote_addr ((req, drawn) ∷ rest) w backend =
      let (response, w1, backend1) =
        handle_request p client server drawn remote_addr req w backend in
      let (responses, w2, backend2) = serve_connection remote_addr rest w1 backend1 in
      (response ∷ responses, w2, backend2)
