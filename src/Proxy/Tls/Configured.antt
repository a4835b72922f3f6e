-- ===== src/Proxy/Tls/Configured.antt =====
-- src/proxy/mod.rs: which acceptor the server gets.
use zero_trust_proxy.Common.{String, ◌≡◌, true, Option, some, List, arith, inl, inr, Option-cases}
use zero_trust_proxy.Config.{ServerConfig}
use zero_trust_proxy.Error.{ok, Result-cases}
use zero_trust_proxy.Proxy.Tls.{
  Rustls, load_certs, load_private_key, tls_acceptor, build_tls_acceptor,
}

module _ {File Cert Key Acceptor : Type 0} (rustls : Rustls File Cert Key Acceptor)
    (server : ServerConfig) where
  -- An acceptor over the certificates and the key of the configured files.
  pub record Configured (acceptor : Acceptor) : Type 0 where
    pub cert_path : String
    pub key_path : String
    pub cert_set : server.tls_cert ≡ some cert_path
    pub key_set : server.tls_key ≡ some key_path
    pub certs : List Cert
    pub key : Key
    pub certs_loaded : load_certs rustls cert_path ≡ ok certs
    pub key_loaded : load_private_key rustls key_path ≡ ok key
    pub made : rustls.with_single_cert certs key ≡ ok acceptor

  tls_acceptor-Configured :
      (acceptor : Acceptor) → tls_acceptor rustls server ≡ ok acceptor → Configured acceptor
  unfolding tls_acceptor
  tls_acceptor-Configured acceptor h = elim (Option-cases server.tls_cert) [
    | inl unset ↦ absurd (ground arith)
    | inr (cert_path, cert_set) ↦ elim (Option-cases server.tls_key) [
      | inl unset ↦ absurd (ground arith)
      | inr (key_path, key_set) ↦ elim (Result-cases (load_certs rustls cert_path)) [
        | inr (e, q) ↦ absurd (ground arith)
        | inl (certs, certs_loaded) ↦ elim (Result-cases (load_private_key rustls key_path)) [
          | inr (e, q) ↦ absurd (ground arith)
          | inl (key, key_loaded) ↦ record {
            cert_path = cert_path;
            key_path = key_path;
            cert_set = cert_set;
            key_set = key_set;
            certs = certs;
            key = key;
            certs_loaded = certs_loaded;
            key_loaded = key_loaded;
            made = ground arith;
          }
        ]
      ]
    ]
  ]

  -- With TLS enabled, the server has a configured acceptor or does not start.
  pub build_tls_acceptor-Configured :
      (found : Option Acceptor)
      → server.enable_tls ≡ true
      → build_tls_acceptor rustls server ≡ ok found
      → (acceptor : Acceptor) × (found ≡ some acceptor) × Configured acceptor
  unfolding build_tls_acceptor
  build_tls_acceptor-Configured found on h = elim (Result-cases (tls_acceptor rustls server)) [
    | inr (e, q) ↦ absurd (ground arith)
    | inl (acceptor, q) ↦ (acceptor, ground arith, tls_acceptor-Configured acceptor q)
  ]
