-- ===== src/Proxy/Writes/Grows.antt =====
-- src/db/mod.rs and src/audit/mod.rs: what no request takes away.
use zero_trust_proxy.Common.{
  ◌≡◌, refl, ◌∙◌, Bool, true, false, ◌==◌, List, [], ◌∷◌, any, Bool-cases, inl, inr, if◌then◌else◌,
}
use zero_trust_proxy.Common.Extends.{Extends, Extends-refl, Extends-trans, Extends-append}
use zero_trust_proxy.Db.{UserRow, DeviceEntry, Tables, put_device, update_rows}
use zero_trust_proxy.World.{World}
use zero_trust_proxy.World.Respects.{IsPreorder}
use zero_trust_proxy.Risk.{IpAddr}
use zero_trust_proxy.Proxy.Server.{Platform, Request, ProxyServer}
use zero_trust_proxy.Proxy.Upstream.{HttpClient}
use zero_trust_proxy.Proxy.Dispatch.{Drawn}
use zero_trust_proxy.Proxy.Serve.{serve_connection}
use zero_trust_proxy.Proxy.Writes.{Admits}
use zero_trust_proxy.Proxy.Writes.Requests.{serve_connection-Respects}

-- The same account; a second factor may have been switched on, but not off.
pub record SameUser (u v : UserRow) : Type 0 where
  pub id : v.id ≡ u.id
  pub username : v.username ≡ u.username
  pub email : v.email ≡ u.email
  pub password_hash : v.password_hash ≡ u.password_hash
  pub is_active : v.is_active ≡ u.is_active
  pub keeps_factor : u.mfa_enabled ≡ true → v.mfa_enabled ≡ true

-- The same device of the same account.
pub record SameDevice (d e : DeviceEntry) : Type 0 where
  pub user_id : e.user_id ≡ d.user_id
  pub fingerprint_hash : e.fingerprint_hash ≡ d.fingerprint_hash
  pub user_agent : e.user_agent ≡ d.user_agent
  pub platform : e.platform ≡ d.platform
  pub browser : e.browser ≡ d.browser

-- Rows stay, in their order, and the audit log as it is.
pub record Grows (t u : Tables) : Type 0 where
  pub users : Extends SameUser t.users u.users
  pub devices : Extends SameDevice t.devices u.devices
  pub audit_log : Extends (λ a b. b ≡ a) t.audit_log u.audit_log

SameUser-refl : (u : UserRow) → SameUser u u
SameUser-refl u = record {
  id = refl;
  username = refl;
  email = refl;
  password_hash = refl;
  is_active = refl;
  keeps_factor = λ h. h;
}

SameUser-trans : (u v w : UserRow) → SameUser u v → SameUser v w → SameUser u w
SameUser-trans u v w a b = record {
  id = b.id ∙ a.id;
  username = b.username ∙ a.username;
  email = b.email ∙ a.email;
  password_hash = b.password_hash ∙ a.password_hash;
  is_active = b.is_active ∙ a.is_active;
  keeps_factor = λ h. b.keeps_factor (a.keeps_factor h);
}

SameDevice-refl : (d : DeviceEntry) → SameDevice d d
SameDevice-refl d = record {
  user_id = refl;
  fingerprint_hash = refl;
  user_agent = refl;
  platform = refl;
  browser = refl;
}

SameDevice-trans : (c d e : DeviceEntry) → SameDevice c d → SameDevice d e → SameDevice c e
SameDevice-trans c d e a b = record {
  user_id = b.user_id ∙ a.user_id;
  fingerprint_hash = b.fingerprint_hash ∙ a.fingerprint_hash;
  user_agent = b.user_agent ∙ a.user_agent;
  platform = b.platform ∙ a.platform;
  browser = b.browser ∙ a.browser;
}

same_users : (t : Tables) → Extends SameUser t.users t.users
same_users t = Extends-refl SameUser SameUser-refl t.users

same_devices : (t : Tables) → Extends SameDevice t.devices t.devices
same_devices t = Extends-refl SameDevice SameDevice-refl t.devices

same_log : (t : Tables) → Extends (λ a b. b ≡ a) t.audit_log t.audit_log
same_log t = Extends-refl (λ a b. b ≡ a) (λ a. refl) t.audit_log

instance pub Grows-IsPreorder : IsPreorder Grows
Grows-IsPreorder = record {
  stays = λ t. record { users = same_users t; devices = same_devices t; audit_log = same_log t };
  follows = λ t u v g h. record {
    users = Extends-trans SameUser SameUser-trans t.users u.users v.users g.users h.users;
    devices =
        Extends-trans SameDevice SameDevice-trans t.devices u.devices v.devices g.devices h.devices;
    audit_log =
        Extends-trans (λ a b. b ≡ a) (λ a b c p q. q ∙ p) t.audit_log u.audit_log v.audit_log
          g.audit_log h.audit_log;
  };
}

-- An update of rows that relates each to what it becomes.
Extends-update_rows :
    {A : Type 0} (K : A → A → Type 0) (p : A → Bool) (f : A → A)
    → ((x : A) → K x x)
    → ((x : A) → K x (f x))
    → (xs : List A) → Extends K xs (update_rows p f xs)
unfolding Extends update_rows
Extends-update_rows K p f same changed [] = tt
Extends-update_rows K p f same changed (x ∷ xs) =
    (head (p x), Extends-update_rows K p f same changed xs)
  where
    head : (b : Bool) → K x (if b then f x else x)
    head true = changed x
    head false = same x

put_device-Extends :
    (d : DeviceEntry) (devices : List DeviceEntry)
    → Extends SameDevice devices (put_device d devices)
unfolding put_device
put_device-Extends d devices =
    elim (Bool-cases (any (λ e. e.fingerprint_hash == d.fingerprint_hash) devices)) [
      | inl b ↦ rw b (
          Extends-update_rows SameDevice _ _ SameDevice-refl
            (λ e. record {
              user_id = refl;
              fingerprint_hash = refl;
              user_agent = refl;
              platform = refl;
              browser = refl;
            })
            devices)
      | inr b ↦ rw b (Extends-append SameDevice SameDevice-refl devices (d ∷ []))
    ]

instance pub Grows-Admits : Admits Grows
Grows-Admits = record {
  logs = λ row t. record {
    users = same_users t;
    devices = same_devices t;
    audit_log = Extends-append (λ a b. b ≡ a) (λ a. refl) t.audit_log (row ∷ []);
  };
  puts = λ d t. record {
    users = same_users t;
    devices = put_device-Extends d t.devices;
    audit_log = same_log t;
  };
  enrolls = λ id secret t. record {
    users =
        Extends-update_rows SameUser _ _ SameUser-refl
          (λ u. record {
            id = refl;
            username = refl;
            email = refl;
            password_hash = refl;
            is_active = refl;
            keeps_factor = λ h. refl;
          })
          t.users;
    devices = same_devices t;
    audit_log = same_log t;
  };
  registers = λ user t new. record {
    users = Extends-append SameUser SameUser-refl t.users (user ∷ []);
    devices = same_devices t;
    audit_log = same_log t;
  };
}

module _ {Store F Backend : Type 0} (p : Platform Store F) (client : HttpClient Backend)
    (server : ProxyServer) (remote : IpAddr) where
  -- Whatever requests a connection sends, afterwards every account and every device is in its
  -- place, with the same name, address, password and owner; no second factor has been switched off,
  -- and the audit log is what it was with new rows behind.
  pub serve_connection-Grows :
      (requests : List (Request × Drawn)) (w : World Store) (backend : Backend)
      → Grows w.db.tables (serve_connection p client server remote requests w backend).1.db.tables
  serve_connection-Grows requests w backend =
      serve_connection-Respects Grows p client server remote requests w backend
