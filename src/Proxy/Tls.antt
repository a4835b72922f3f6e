-- ===== src/Proxy/Tls.antt =====
-- src/proxy/mod.rs: `build_tls_acceptor`, and the files of the certificate and the key. The file
-- system and the crates rustls and rustls_pemfile are a parameter; an `anyhow` error is its text.
pub mod Configured
use Prim.Native.String.{◌++◌ as ◌<>◌}
use zero_trust_proxy.Common.{String, Bool, not, Option, none, some, List, [], ◌∷◌, if◌then◌else◌}
use zero_trust_proxy.Config.{ServerConfig}
use zero_trust_proxy.Error.{Result, ok, err, ok_or, map_err, ◌>>=◌}

-- What is opened, the items of a PEM file, and the acceptor that takes no client certificates.
pub record Rustls (File Cert Key Acceptor : Type 0) : Type 0 where
  pub open_file : String → Result String File
  pub certs : File → List (Result String Cert)
  pub private_key : File → Result String (Option Key)
  pub with_single_cert : List Cert → Key → Result String Acceptor

-- `collect::<Result<Vec<_>, _>>`: the first error, or all values.
unfoldable pub collect {ℓ} : {A : Type ℓ} → List (Result String A) → Result String (List A)
collect [] = ok []
collect (r ∷ rs) = do x ← r; xs ← collect rs; ok (x ∷ xs)

module _ {File Cert Key Acceptor : Type 0} (rustls : Rustls File Cert Key Acceptor) where
  unfoldable pub load_certs : String → Result String (List Cert)
  load_certs path = do
    file ← map_err (λ e. "failed to open TLS cert " <> path <> ": " <> e) (rustls.open_file path)
    collect (rustls.certs file)

  unfoldable pub load_private_key : String → Result String Key
  load_private_key path = do
    file ← map_err (λ e. "failed to open TLS key " <> path <> ": " <> e) (rustls.open_file path)
    key ← rustls.private_key file
    ok_or key ("no private key found in " <> path)

  unfoldable pub tls_acceptor : ServerConfig → Result String Acceptor
  tls_acceptor server = do
    cert_path ← ok_or server.tls_cert "server.enable_tls is true but tls_cert is not set"
    key_path ← ok_or server.tls_key "server.enable_tls is true but tls_key is not set"
    certs ← load_certs cert_path
    key ← load_private_key key_path
    rustls.with_single_cert certs key

  unfoldable pub build_tls_acceptor : ServerConfig → Result String (Option Acceptor)
  build_tls_acceptor server =
      if not server.enable_tls
      then ok none
      else (do acceptor ← tls_acceptor server; ok (some acceptor))
