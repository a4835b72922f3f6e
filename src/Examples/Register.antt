-- ===== src/Examples/Register.antt =====
-- A registration at a concrete request.
use zero_trust_proxy.Common.{◌≡◌, refl, none, some, true, false, any}
use zero_trust_proxy.Common.Text.{byte_len}
use zero_trust_proxy.Error.{ok}
use zero_trust_proxy.Db.{UserRow, find_row, find_user_by_username, create_user}
use zero_trust_proxy.World.{World}
use zero_trust_proxy.Auth.Password.{hash_password}
use zero_trust_proxy.Proxy.Server.{Request}
use zero_trust_proxy.Proxy.RateLimit.{check_rate_limit}
use zero_trust_proxy.Proxy.Register.{handle_register, check_length, register_user, create_account}
use zero_trust_proxy.Proxy.Register.Sound.{Registered, handle_register-Registered}
use zero_trust_proxy.Examples.Store.{Pairs, redis}
use zero_trust_proxy.Examples.Fixtures.{answering, platform, request, remote, world}

abbrev register_request : Request
register_request = record request { method = "POST"; body = some "twelve bytes" }

abbrev registered_user : UserRow
registered_user = record {
  id = "g";
  username = "alice";
  email = "a@b.c";
  password_hash = "twelve bytes";
  mfa_enabled = false;
  mfa_secret = none;
  is_active = true;
}

abbrev after : World Pairs
after = (handle_register platform remote "salt" register_request world).1

registered : (handle_register platform remote "salt" register_request world).0 ≡ ok registered_user
unfolding handle_register check_length register_user create_account check_rate_limit redis platform
    hash_password find_user_by_username create_user find_row any byte_len
registered = refl

handle_register-Registered_example :
    Registered platform remote "salt" register_request registered_user world after
handle_register-Registered_example =
    handle_register-Registered platform remote "salt" register_request registered_user world after (
      answering (handle_register platform remote "salt" register_request world) (ok registered_user)
        registered)
