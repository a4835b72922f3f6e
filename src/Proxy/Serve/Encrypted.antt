-- ===== src/Proxy/Serve/Encrypted.antt =====
-- src/proxy/mod.rs: with TLS enabled, no connection is served in the clear.
use zero_trust_proxy.Common.{
  String, ◌≡◌, refl, ap, ◌∙◌, ◌⊎◌, inl, inr, true, Option, none, some, List, [], ◌∷◌, All, arith,
}
use zero_trust_proxy.Error.{Result, ok, err, Result-cases}
use zero_trust_proxy.Proxy.Server.{ProxyServer}
use zero_trust_proxy.Proxy.Tls.{Rustls, build_tls_acceptor}
use zero_trust_proxy.Proxy.Tls.Configured.{Configured, build_tls_acceptor-Configured}
use zero_trust_proxy.Proxy.Serve.{
  Sockets, Connection, Task, open_connection, accept_loop, listen, serve,
}

module _ {File Cert Key Addr Listener Acceptor Stream TlsStream : Type 0}
    (rustls : Rustls File Cert Key Acceptor)
    (sockets : Sockets Addr Listener Acceptor Stream TlsStream) (server : ProxyServer) where
  -- A connection that a handshake has opened, with an acceptor over the configured files.
  pub record OverTls (found : Option (Connection Stream TlsStream)) : Type 0 where
    pub acceptor : Acceptor
    pub configured : Configured rustls server.config.server acceptor
    pub stream : Stream
    pub tls_stream : TlsStream
    pub shaken : sockets.accept acceptor stream ≡ ok tls_stream
    pub opened : found ≡ some (Connection.encrypted tls_stream)

  -- A task serves an encrypted connection or none.
  abbrev pub IsPrivate : Task Addr Stream TlsStream → Type 0
  IsPrivate task = (task.0 ≡ none) ⊎ OverTls task.0

  open_connection-IsPrivate :
      (acceptor : Acceptor) (stream : Stream) (remote : Addr)
      → Configured rustls server.config.server acceptor
      → IsPrivate (open_connection rustls sockets (some acceptor) stream, remote)
  unfolding open_connection
  open_connection-IsPrivate acceptor stream remote c =
      elim (Result-cases (sockets.accept acceptor stream)) [
        | inr (e, q) ↦ inl (rw q refl)
        | inl (tls_stream, q) ↦ inr (record {
          acceptor = acceptor;
          configured = c;
          stream = stream;
          tls_stream = tls_stream;
          shaken = q;
          opened = rw q refl;
        })
      ]

  accept_loop-IsPrivate :
      (acceptor : Acceptor) (answers : List (Result String (Stream × Addr)))
      → Configured rustls server.config.server acceptor
      → All IsPrivate (accept_loop rustls sockets (some acceptor) answers).0
  unfolding accept_loop
  accept_loop-IsPrivate acceptor [] c = tt
  accept_loop-IsPrivate acceptor (err e ∷ rest) c = tt
  accept_loop-IsPrivate acceptor (ok (stream, remote) ∷ rest) c =
      (open_connection-IsPrivate acceptor stream remote c, accept_loop-IsPrivate acceptor rest c)

  listen-Configured :
      (addr : Addr) (listener : Listener) (found : Option Acceptor)
      → server.config.server.enable_tls ≡ true
      → listen rustls sockets server addr ≡ ok (listener, found)
      → (acceptor : Acceptor) × (found ≡ some acceptor)
        × Configured rustls server.config.server acceptor
  unfolding listen
  listen-Configured addr listener found on h = elim (Result-cases (sockets.bind addr)) [
    | inr (e, q) ↦ absurd (ground arith)
    | inl (bound, q) ↦
        build_tls_acceptor-Configured rustls server.config.server found on
          (elim (Result-cases (build_tls_acceptor rustls server.config.server)) [
            | inr (e, r) ↦ absurd (ground arith)
            | inl (made, r) ↦ r ∙ ap ok (ground arith)
          ])
  ]

  -- With TLS enabled, every task serves a connection that has been opened by a handshake over the
  -- certificates and the key of the configured files, or none.
  pub serve-IsPrivate :
      (addr : Addr)
      → server.config.server.enable_tls ≡ true
      → All IsPrivate (serve rustls sockets server addr).0
  unfolding serve
  serve-IsPrivate addr on = elim (Result-cases (listen rustls sockets server addr)) [
    | inr (e, q) ↦ rw q tt
    | inl ((listener, found), q) ↦
        let (acceptor, same, c) = listen-Configured addr listener found on q in
        rw (q, same) (accept_loop-IsPrivate acceptor (sockets.accepted listener) c)
  ]
