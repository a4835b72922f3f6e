-- ===== src/Examples/Start.antt =====
-- A start of the server with concrete files, sockets and services.
use zero_trust_proxy.Common.{◌≡◌, ◌≢◌, arith, refl, true, String, none, some, [], ◌∷◌, All}
use zero_trust_proxy.Config.{Config, missing, default, load}
use zero_trust_proxy.Error.{ok, err}
use zero_trust_proxy.Proxy.Server.{ProxyServer, new}
use zero_trust_proxy.Proxy.Tls.{
  Rustls, build_tls_acceptor, tls_acceptor, load_certs, load_private_key, collect,
}
use zero_trust_proxy.Proxy.Serve.{Sockets, Connection, serve, listen, accept_loop, open_connection}
use zero_trust_proxy.Proxy.Serve.Encrypted.{IsPrivate, serve-IsPrivate}
use zero_trust_proxy.Proxy.Serve.Stopped.{spawned, serve_stopped}
use zero_trust_proxy.Start.{Services, Ready, prepare, main}
use zero_trust_proxy.Start.Order.{Prepared, main-Prepared}
use zero_trust_proxy.Examples.Fixtures.{database}

-- Everything is a text; the acceptor is the key.
abbrev rustls : Rustls String String String String
rustls = record {
  open_file = λ path. ok path;
  certs = λ file. ok file ∷ [];
  private_key = λ file. ok (some file);
  with_single_cert = λ certs key. ok key;
}

-- One connection arrives, then the process runs out of descriptors, then another one arrives.
abbrev sockets : Sockets String String String String String
sockets = record {
  bind = λ addr. ok addr;
  accepted = λ listener. ok ("first", "10.0.0.1") ∷ err "EMFILE" ∷ ok ("second", "10.0.0.2") ∷ [];
  accept = λ acceptor stream. ok stream;
}

unfoldable config : Config
unfolding default
config =
    let usual = default (λ name. none) in
    record usual {
      server = record (usual.server) {
        enable_tls = true;
        tls_cert = some "cert.pem";
        tls_key = some "key.pem";
      };
    }

abbrev secure : ProxyServer
secure = new config

serve-IsPrivate_example :
    All (IsPrivate rustls sockets secure) (serve rustls sockets secure "127.0.0.1:8443").0
unfolding config new
serve-IsPrivate_example = serve-IsPrivate rustls sockets secure "127.0.0.1:8443" refl

listening : listen rustls sockets secure "127.0.0.1:8443" ≡ ok ("127.0.0.1:8443", some "key.pem")
unfolding listen build_tls_acceptor tls_acceptor load_certs load_private_key collect config new
listening = refl

serve_stopped_example :
    serve rustls sockets secure "127.0.0.1:8443"
    ≡ (spawned rustls sockets (some "key.pem") (("first", "10.0.0.1") ∷ []), some "EMFILE")
serve_stopped_example =
    serve_stopped rustls sockets secure "127.0.0.1:8443" "127.0.0.1:8443" (some "key.pem")
      (("first", "10.0.0.1") ∷ []) "EMFILE" (ok ("second", "10.0.0.2") ∷ []) listening refl

-- The usual configuration, and services that answer.
unfoldable services : Services String String String
services = record {
  env = λ name. none;
  file = λ path. missing;
  from_str = λ text. err "no parser";
  connect = λ url max_connections. ok database;
  migrate = λ db. (ok tt, db);
  open_client = λ url. ok url;
  get_connection_manager = λ client. ok client;
  parse_addr = λ text. some text;
}

served : (main services rustls sockets).0 ≡ (some (Connection.plain "first"), "10.0.0.1") ∷ []
unfolding main prepare services load default new serve listen build_tls_acceptor accept_loop
    open_connection
served = refl

busy : (main services rustls sockets).0 ≢ []
busy e = absurd (ground (arith, served))

main-Prepared_example :
    (ready : Ready String String) × Prepared services ready
    × (main services rustls sockets).0 ≡ (serve rustls sockets ready.server ready.addr).0
main-Prepared_example = main-Prepared services rustls sockets busy
