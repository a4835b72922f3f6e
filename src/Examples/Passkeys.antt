-- ===== src/Examples/Passkeys.antt =====
-- Passkeys in both stores, over a codec that prints a text as itself.
use zero_trust_proxy.Common.{
  ◌≡◌, ◌≢◌, refl, sym, String, true, ◌==◌, if◌then◌else◌, none, some, [], ◌∷◌,
}
use zero_trust_proxy.Common.Int.{pos}
use zero_trust_proxy.Config.{PasskeyStoreKind}
use zero_trust_proxy.Error.{authentication_failed, database_error, ok, err}
use zero_trust_proxy.World.{Codec, RoundTrips}
use zero_trust_proxy.Auth.Passkey.{Credentials, PasskeyRecord, passkey_of, Implements}
use zero_trust_proxy.Auth.Passkey.Keyed.{find_at, amend_at, of_user}
use zero_trust_proxy.Auth.Passkey.Postgres.{PasskeyTable}
use zero_trust_proxy.Auth.Passkey.Postgres
use zero_trust_proxy.Auth.Passkey.Handle.{
  PasskeyStoreHandle, Pool, connect, connect_passkey_store, save_passkey, get_passkeys,
  update_passkey, passkey_store,
}
use zero_trust_proxy.Auth.Passkey.Handle.Refines.{view, IsValid, passkey_store-Implements}
use zero_trust_proxy.Auth.Passkey.Ceremonies.{
  Types, WebauthnRs, new, start_passkey_authentication, refresh_passkey,
}
use zero_trust_proxy.Auth.Passkey.Ceremonies.Refresh.{refresh_passkey-get_passkeys}

abbrev json : Codec String
json = record { to_string = λ a. ok a; from_str = λ s. ok s }

abbrev codec : RoundTrips json
codec = record { round_trip = λ a s h. sym h }

abbrev empty_table : PasskeyTable
empty_table = record { rows = []; statements = 0; outages = λ n. none; clock = λ n. pos n }

-- A passkey is a text, and its update puts the new counter in its place.
abbrev credentials : Credentials String String
credentials = record { cred_id = λ p. p; encode = λ s. s; update_credential = λ result p. result }

abbrev key1 : PasskeyRecord String
key1 = record { user_id = "alice"; cred_id = "k1"; passkey = "counter 0" }

abbrev key2 : PasskeyRecord String
key2 = record { user_id = "alice"; cred_id = "k2"; passkey = "counter 5" }

abbrev enrolled : PasskeyStoreHandle String
enrolled =
    let first = (save_passkey json key1 (PasskeyStoreHandle.postgres empty_table)).1 in
    (save_passkey json key2 first).1

abbrev advanced : PasskeyRecord String
advanced = record key1 { passkey = "counter 1" }

-- Postgres refuses a second credential under one key.
duplicate :
    (save_passkey json advanced enrolled).0
    ≡ err (database_error "duplicate key value violates unique constraint")
unfolding save_passkey Postgres.save_passkey Postgres.insert_row find_at
duplicate = refl

passkey_store-Implements_example :
    Implements (passkey_store json) (view json codec) (IsValid json codec)
passkey_store-Implements_example = passkey_store-Implements json codec

refresh_passkey-get_passkeys_example :
    (view json codec enrolled "alice" "k1" ≢ none)
    × (passkey_of "k2" (advanced ∷ key2 ∷ [])
        ≡ (if "k2" == "k1" then some "counter 1" else view json codec enrolled "alice" "k2"))
unfolding refresh_passkey save_passkey get_passkeys update_passkey Postgres.save_passkey
    Postgres.get_passkeys Postgres.update_passkey Postgres.insert_row Postgres.update_row
    Postgres.record_of Postgres.records_of find_at amend_at of_user
refresh_passkey-get_passkeys_example =
    refresh_passkey-get_passkeys (passkey_store-Implements json codec) credentials key1 "counter 1"
      enrolled "k2" (advanced ∷ key2 ∷ []) (("counter 0", refl), (("counter 5", refl), tt)) refl
      refl

abbrev types : Types
types = record {
  Url = String;
  Builder = String;
  Webauthn = String;
  Passkey = String;
  AuthenticationResult = String;
  CreationChallengeResponse = String;
  PasskeyRegistration = String;
  RegisterPublicKeyCredential = String;
  RequestChallengeResponse = String;
  PasskeyAuthentication = String;
  PublicKeyCredential = String;
}

abbrev webauthn_rs : WebauthnRs types
webauthn_rs = record {
  parse = λ s. if s == "" then err "empty host" else ok s;
  new = λ rp_id url. ok rp_id;
  rp_name = λ builder name. name;
  build = λ builder. ok builder;
  start_passkey_registration = λ w u n d exclude random. ok (random, random);
  finish_passkey_registration =
      λ w response state. if response == state then ok response else err "wrong challenge";
  start_passkey_authentication = λ w ps random. ok (random, random);
  finish_passkey_authentication =
      λ w response state. if response == state then ok "counter 1" else err "wrong challenge";
}

-- Two credentials start a login.
started :
    start_passkey_authentication webauthn_rs "rp" ("counter 0" ∷ "counter 5" ∷ []) "c"
    ≡ ok ("c", "c")
unfolding start_passkey_authentication
started = refl

-- A manager without an origin is not built.
no_origin :
    new webauthn_rs (record {
      rp_id = "localhost";
      rp_origin = "";
      rp_name = "Zero-Trust Proxy";
      enabled = true;
      passkey_store = PasskeyStoreKind.memory;
    })
    ≡ err (authentication_failed "invalid webauthn rp_origin: empty host")
unfolding new
no_origin = refl

abbrev pool : Pool
pool url max_connections acquire_timeout = if url == "" then err "no address" else ok empty_table

selected :
    (connect_passkey_store {P = String} pool PasskeyStoreKind.memory "" 5
      ≡ ok (PasskeyStoreHandle.memory []))
    × (connect_passkey_store {P = String} pool PasskeyStoreKind.postgres "" 5
        ≡ err (database_error "no address"))
    × (connect_passkey_store {P = String} pool PasskeyStoreKind.postgres "db" 5
        ≡ ok (PasskeyStoreHandle.postgres empty_table))
unfolding connect_passkey_store connect
selected = (refl, refl, refl)

-- A statement that Postgres has done, and whose answer is lost.
abbrev cut_off : PasskeyTable
cut_off = record empty_table {
  outages = λ n. some (record { error = "connection reset"; done = true });
}

answer_lost :
    let (answer, s) = save_passkey json key1 (PasskeyStoreHandle.postgres cut_off) in
    (answer ≡ err (database_error "connection reset"))
    × (view json codec s "alice" "k1" ≡ some "counter 0")
unfolding save_passkey Postgres.save_passkey Postgres.insert_row find_at
answer_lost = (refl, refl)
