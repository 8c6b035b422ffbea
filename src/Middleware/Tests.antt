-- ===== src/Middleware/Tests.antt =====
-- A request of an administrator.
use dk_agent_memory.Store.Model.{Identity}
use dk_agent_memory.Auth.{
  ApiKey, User, Crypto, split_key, find_user, find_key, authenticate, verified, token, verify_key,
  touch_key, lookup, assign, add, evict, change_key,
}
use dk_agent_memory.Middleware.{
  Request, Float, ServerState, bearer_token, is_secure_request, allow, bucket_of, set_bucket,
  evict_locked, require_auth, require_admin,
}
use dk_agent_memory.Middleware.Access.{Passes, require_admin-Passes}
use dk_agent_memory.Base.{
  ℕ, ◌+◌, ◌-◌, ◌*◌, ◌/◌, ◌≡◌, refl, Bool, true, false, none, some, [], ◌∷◌, ltb, Text, codes,
  text_eq, is_space, trim_left, trim_space, index_byte, has_prefix, split_from, ok,
}

-- Natural numbers in place of floating point.
abbrev naturals : Float
naturals = record {
  F = ℕ;
  of_int = λ n. n;
  plus = λ a b. a + b;
  minus = λ a b. a - b;
  times = λ a b. a * b;
  over = λ a b. a / b;
  less = ltb;
  truncate = λ n. n;
  minutes = λ n. n / 60;
}

abbrev toy_crypto : Crypto
toy_crypto = record {
  scan_version = λ _. some 19;
  scan_parameters = λ _. some (1, 1, 1);
  base64_decode = λ s. some s;
  base64_encode = λ s. s;
  argon2_version = 19;
  argon2_key = λ plaintext _ _ _ _ _. plaintext;
  sha256 = λ s. s;
  decimal = λ n. n ∷ [];
}

abbrev admin_key : ApiKey
admin_key = record {
  id = codes "k1";
  user_id = codes "alice";
  prefix = codes "pmk_a3f2";
  hash = codes "$argon2id$v=19$m=1,t=1,p=1$salt$pmk_a3f2_secret";
  label = [];
  created_at = 1;
  last_used_at = none;
  revoked_at = none;
}

abbrev admin : User
admin = record { id = codes "alice"; team_id = codes "t1"; name = codes "Alice"; is_admin = true }

abbrev server : ServerState naturals
server = record {
  auth = record { seen = []; last_used_flush = []; keys = admin_key ∷ []; users = admin ∷ [] };
  limiter = record { buckets = []; writes = 100; reads = 0 };
}

abbrev request : Request
request = record {
  method = codes "POST";
  authorization = codes "Bearer pmk_a3f2_secret";
  tls = true;
  forwarded_proto = [];
  remote_addr = codes "10.0.0.1:4000";
}

abbrev admin_identity : Identity
admin_identity = record {
  key_id = codes "k1";
  user_id = codes "alice";
  user_name = codes "Alice";
  team_id = codes "t1";
  is_admin = true;
}

abbrev no_loopback : Text → Bool
no_loopback _ = false

admin-admitted :
    (require_admin naturals toy_crypto no_loopback true 5 request server).0 ≡ ok admin_identity
unfolding require_admin require_auth bearer_token is_secure_request index_byte trim_space trim_left
    is_space authenticate split_key has_prefix find_key find_user text_eq verified verify_key
    split_from token add evict assign lookup touch_key change_key allow bucket_of set_bucket
    evict_locked
admin-admitted = refl

require_admin-Passes_example :
    Passes naturals toy_crypto no_loopback true 5 request server admin_identity
    × (admin_identity.is_admin ≡ true)
require_admin-Passes_example =
    require_admin-Passes naturals toy_crypto no_loopback true 5 request server admin_identity
      admin-admitted
