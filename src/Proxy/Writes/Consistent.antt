-- ===== src/Proxy/Writes/Consistent.antt =====
-- src/db/mod.rs and docs/schema.sql: the unique columns, and the secrets of second factors.
use zero_trust_proxy.Common.{
  String, ◌≡◌, refl, ◌∙◌, Bool, true, false, ◌==◌, List, [], ◌∷◌, any, All, All-append, arith,
  is_some, Bool-cases, inl, inr, if◌then◌else◌,
}
use zero_trust_proxy.Common.Distinct.{Distinct, Distinct-append, any-or}
use zero_trust_proxy.Db.{UserRow, DeviceEntry, Tables, put_device, update_rows}
use zero_trust_proxy.World.{World}
use zero_trust_proxy.World.Respects.{IsPreorder}
use zero_trust_proxy.Risk.{IpAddr}
use zero_trust_proxy.Proxy.Server.{Platform, Request, ProxyServer}
use zero_trust_proxy.Proxy.Upstream.{HttpClient}
use zero_trust_proxy.Proxy.Dispatch.{Drawn}
use zero_trust_proxy.Proxy.Serve.{serve_connection}
use zero_trust_proxy.Proxy.Writes.{Admits}
use zero_trust_proxy.Proxy.Writes.Requests.{serve_connection-Respects}

-- A second factor that is on has a secret.
abbrev pub HasSecret : UserRow → Type 0
HasSecret u = u.mfa_enabled ≡ true → is_some u.mfa_secret ≡ true

-- No two accounts share a name or an address, no two rows a fingerprint.
pub record IsConsistent (t : Tables) : Type 0 where
  pub usernames : Distinct (λ u. u.username) t.users
  pub emails : Distinct (λ u. u.email) t.users
  pub fingerprints : Distinct (λ d. d.fingerprint_hash) t.devices
  pub secrets : All HasSecret t.users

pub record StaysConsistent (t u : Tables) : Type 0 where
  pub keeps : IsConsistent t → IsConsistent u

instance StaysConsistent-IsPreorder : IsPreorder StaysConsistent
StaysConsistent-IsPreorder = record {
  stays = λ t. record { keeps = λ c. c };
  follows = λ t u v g h. record { keeps = λ c. h.keeps (g.keeps c) };
}

module _ {A : Type 0} (p : A → Bool) (f : A → A) where
  -- An update that keeps a key keeps it distinct.
  module _ (key : A → String) (keyed : (x : A) → key (f x) ≡ key x) where
    key-updated : (x : A) → key (if p x then f x else x) ≡ key x
    key-updated x = elim (Bool-cases (p x)) [ inl b ↦ rw b (keyed x) | inr b ↦ rw b refl ]

    any-update_rows :
        (k : String) (xs : List A)
        → any (λ x. key x == k) (update_rows p f xs) ≡ any (λ x. key x == k) xs
    unfolding any update_rows
    any-update_rows k [] = refl
    any-update_rows k (x ∷ xs) = rw (key-updated x, any-update_rows k xs) refl

    Distinct-update_rows : (xs : List A) → Distinct key xs → Distinct key (update_rows p f xs)
    unfolding Distinct update_rows
    Distinct-update_rows [] d = tt
    Distinct-update_rows (x ∷ xs) (fresh, d) =
        (rw (key-updated x) (any-update_rows (key x) xs ∙ fresh), Distinct-update_rows xs d)

  All-update_rows :
      (P : A → Type 0)
      → ((x : A) → P x → P (f x))
      → (xs : List A) → All P xs
      → All P (update_rows p f xs)
  unfolding update_rows
  All-update_rows P k [] h = tt
  All-update_rows P k (x ∷ xs) (hx, h) = (head (p x), All-update_rows P k xs h)
    where
      head : (b : Bool) → P (if b then f x else x)
      head true = k x hx
      head false = hx

put_device-Distinct :
    (d : DeviceEntry) (devices : List DeviceEntry)
    → Distinct (λ e. e.fingerprint_hash) devices
    → Distinct (λ e. e.fingerprint_hash) (put_device d devices)
unfolding put_device
put_device-Distinct d devices h =
    elim (Bool-cases (any (λ e. e.fingerprint_hash == d.fingerprint_hash) devices)) [
      | inl b ↦ rw b (Distinct-update_rows _ _ (λ e. e.fingerprint_hash) (λ e. refl) devices h)
      | inr b ↦ rw b (Distinct-append (λ e. e.fingerprint_hash) d devices b h)
    ]

instance StaysConsistent-Admits : Admits StaysConsistent
StaysConsistent-Admits = record {
  logs = λ row t. record {
    keeps = λ c. record {
      usernames = c.usernames;
      emails = c.emails;
      fingerprints = c.fingerprints;
      secrets = c.secrets;
    };
  };
  puts = λ d t. record {
    keeps = λ c. record {
      usernames = c.usernames;
      emails = c.emails;
      fingerprints = put_device-Distinct d t.devices c.fingerprints;
      secrets = c.secrets;
    };
  };
  enrolls = λ id secret t. record {
    keeps = λ c. record {
      usernames = Distinct-update_rows _ _ (λ u. u.username) (λ u. refl) t.users c.usernames;
      emails = Distinct-update_rows _ _ (λ u. u.email) (λ u. refl) t.users c.emails;
      fingerprints = c.fingerprints;
      secrets = All-update_rows _ _ HasSecret (λ u h on. refl) t.users c.secrets;
    };
  };
  registers = λ user t new. record {
    keeps = λ c.
        let (name, address) =
          any-or (λ u. u.username == user.username) (λ u. u.email == user.email) t.users
            new.untaken in
        record {
          usernames = Distinct-append (λ u. u.username) user t.users name c.usernames;
          emails = Distinct-append (λ u. u.email) user t.users address c.emails;
          fingerprints = c.fingerprints;
          secrets =
              All-append HasSecret t.users (user ∷ []) c.secrets
                ((λ on. let off = new.no_factor in absurd (ground arith)), tt);
        };
  };
}

module _ {Store F Backend : Type 0} (p : Platform Store F) (client : HttpClient Backend)
    (server : ProxyServer) (remote : IpAddr) where
  -- Whatever requests a connection sends, from tables in which no two accounts share a name or an
  -- address, no two devices a fingerprint, and each second factor that is on has a secret, it comes
  -- to tables of the same kind.
  pub serve_connection-IsConsistent :
      (requests : List (Request × Drawn)) (w : World Store) (backend : Backend)
      → IsConsistent w.db.tables
      → IsConsistent (serve_connection p client server remote requests w backend).1.db.tables
  serve_connection-IsConsistent requests w backend =
      (serve_connection-Respects StaysConsistent p client server remote requests w backend).keeps
