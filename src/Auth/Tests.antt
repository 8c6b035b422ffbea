-- ===== src/Auth/Tests.antt =====
-- The theorems on keys at a table of one key.
use dk_agent_memory.Store.Model.{Identity}
use dk_agent_memory.Auth.{
  ApiKey, User, AuthState, Crypto, key_revoked, split_key, find_user, find_key, authenticate,
  verified, token, verify_key, generate_key, touch_key, lookup, assign, add, evict, change_key,
  revoke_key, revocable, any_key,
}
use dk_agent_memory.Auth.Revocation.{revoke_key-authenticate}
use dk_agent_memory.Auth.Accounts.{
  Accounts, Fresh, create_team, create_user, hash_key, issue_key, bootstrap,
}
use dk_agent_memory.Auth.Cache.{Accepted, authenticate-Accepted}
use dk_agent_memory.Base.{
  ◌≤◌, ◌≡◌, refl, true, none, some, [], ◌∷◌, ◌++◌, arith, length, Text, codes, text_eq, is_space,
  trim_left, trim_space, has_prefix, split_from, ok, err,
}

abbrev crypto : Crypto
crypto = record {
  scan_version = λ _. some 19;
  scan_parameters = λ _. some (1, 1, 1);
  base64_decode = λ s. some s;
  base64_encode = λ s. s;
  argon2_version = 19;
  argon2_key = λ plaintext _ _ _ _ _. plaintext;
  sha256 = λ s. s;
  decimal = λ n. n ∷ [];
}

abbrev plaintext : Text
plaintext = codes "pmk_a3f2_secret"

abbrev key : ApiKey
key = record {
  id = codes "k1";
  user_id = codes "alice";
  prefix = codes "pmk_a3f2";
  hash = codes "$argon2id$v=19$m=1,t=1,p=1$salt$pmk_a3f2_secret";
  label = [];
  created_at = 1;
  last_used_at = none;
  revoked_at = none;
}

abbrev user : User
user = record { id = codes "alice"; team_id = codes "t1"; name = codes "Alice"; is_admin = true }

abbrev state : AuthState
state = record { seen = []; last_used_flush = []; keys = key ∷ []; users = user ∷ [] }

abbrev identity : Identity
identity = record {
  key_id = codes "k1";
  user_id = codes "alice";
  user_name = codes "Alice";
  team_id = codes "t1";
  is_admin = true;
}

abbrev after_use : AuthState
after_use = record state {
  seen = (codes "k1" ++ (0 ∷ plaintext), 5) ∷ [];
  last_used_flush = (codes "k1", 5) ∷ [];
  keys = record key { last_used_at = some 5 } ∷ [];
}

abbrev revoked_state : AuthState
revoked_state = record state { keys = record key { revoked_at = some 9 } ∷ [] }

key-split : split_key plaintext ≡ ok (codes "pmk_a3f2")
unfolding split_key has_prefix
key-split = refl

key-found :
    find_key (codes "pmk_a3f2") state.users state.keys ≡ some (record { key = key; user = user })
unfolding find_key find_user text_eq
key-found = refl

key-accepted : authenticate crypto 5 plaintext state ≡ ok (identity, after_use)
unfolding authenticate split_key has_prefix find_key find_user text_eq verified verify_key
    split_from token add evict assign lookup touch_key change_key
key-accepted = refl

key-revoked : revoke_key 9 (codes "t1") (codes "k1") state ≡ ok revoked_state
unfolding revoke_key any_key revocable find_user change_key text_eq
key-revoked = refl

revoke_key-authenticate_example : authenticate crypto 10 plaintext revoked_state ≡ err key_revoked
revoke_key-authenticate_example =
    revoke_key-authenticate crypto 9 10 (codes "t1") (codes "k1") plaintext (codes "pmk_a3f2") state
      revoked_state (record { key = key; user = user }) key-revoked key-split key-found refl refl

authenticate-Accepted_example :
    Accepted crypto 5 plaintext state identity × (length after_use.seen ≤ 4096)
authenticate-Accepted_example =
    authenticate-Accepted crypto 5 plaintext state after_use identity key-accepted (omega arith)

abbrev empty : Accounts
empty = record {
  teams = [];
  auth = record { seen = []; last_used_flush = []; keys = []; users = [] };
}

abbrev random : Fresh crypto
random = record {
  prefix_bytes = 0xa3 ∷ 0xf2 ∷ [];
  secret_bytes = codes "secret";
  salt = codes "salt";
  id = codes "k9";
}

abbrev first_key : ApiKey
first_key = record {
  id = codes "k9";
  user_id = codes "admin";
  prefix = codes "pmk_a3f2";
  hash = codes "$argon2id$v=" ++ (19 ∷ codes "$m=19456,t=2,p=1$salt$pmk_a3f2_secret");
  label = codes "bootstrap admin key";
  created_at = 5;
  last_used_at = none;
  revoked_at = none;
}

abbrev started : Accounts
started = record {
  teams = record { id = codes "default"; name = codes "Default" } ∷ [];
  auth = record {
    seen = [];
    last_used_flush = [];
    keys = first_key ∷ [];
    users =
        record {
          id = codes "admin";
          team_id = codes "default";
          name = codes "Admin";
          is_admin = true;
        }
        ∷ [];
  };
}

first-start :
    bootstrap crypto random 5
      (codes "default")
      (codes "Default")
      (codes "admin")
      (codes "Admin")
      empty
    ≡ ok (some (first_key, plaintext), started)
unfolding bootstrap create_team create_user issue_key hash_key generate_key any_key find_user
    trim_space trim_left is_space text_eq
first-start = refl
