-- ===== src/Auth.antt =====
-- internal/store/auth.go: keys, the cache of verified keys, and who a presented key stands for.
--
-- A call is one atomic step on the state; `now` is the time that it reads, in
-- seconds. The order in which Go ranges over a map is the order of the list.
pub mod Revocation
pub mod Accounts
pub mod Cache
mod Tests
use dk_agent_memory.Ulid
use dk_agent_memory.Store.Model.{Identity}
use dk_agent_memory.Base.{
  ℕ, ◌+◌, ◌-◌, ◌/◌, ◌%◌, Bool, false, not, ◌&&◌, ◌||◌, Option, none, some, List, [], ◌∷◌, ◌++◌, ltb,
  leb, ◌==◌, if◌then◌else◌, is_some, length, get_or, take, keep, Text, codes, text_eq, Result,
  ◌>>=◌, ◌>>◌, refuse_if, has_prefix, split_from, ok, err,
}

pub record ApiKey : Type 0 where
  pub id : Text
  pub user_id : Text
  pub prefix : Text
  pub hash : Text
  pub label : Text
  pub created_at : ℕ
  pub last_used_at : Option ℕ
  pub revoked_at : Option ℕ

pub record User : Type 0 where
  pub id : Text
  pub team_id : Text
  pub name : Text
  pub is_admin : Bool

pub data AuthError : Type 0 where
  key_malformed key_unknown key_revoked : AuthError
  bad_hash : AuthError
  not_found conflict id_required unique_violation : AuthError

-- Tokens that were verified, and when; the last recorded use of each key; and the tables.
pub record AuthState : Type 0 where
  pub seen : List (Text × ℕ)
  pub last_used_flush : List (Text × ℕ)
  pub keys : List ApiKey
  pub users : List User

-- `fmt.Sscanf` on the two parameter fields, `%d`, base64, argon2id and SHA-256.
pub record Crypto : Type 0 where
  pub scan_version : Text → Option ℕ
  pub scan_parameters : Text → Option (ℕ × ℕ × ℕ)
  pub base64_decode : Text → Option Text
  pub base64_encode : Text → Text
  pub argon2_version : ℕ
  pub argon2_key : Text → Text → ℕ → ℕ → ℕ → ℕ → Text
  pub sha256 : Text → Text
  pub decimal : ℕ → Text

abbrev pub key_prefix : Text
key_prefix = codes "pmk"

abbrev pub prefix_len : ℕ
prefix_len = 8

abbrev some_or_bad : {A : Type 0} → Option A → Result AuthError A
some_or_bad none = err bad_hash
some_or_bad (some a) = ok a

abbrev six_parts : List Text → Option (Text × Text × Text × Text × Text)
six_parts (p0 ∷ p1 ∷ p2 ∷ p3 ∷ p4 ∷ p5 ∷ []) = some (p1, p2, p3, p4, p5)
six_parts _ = none

module _ (crypto : Crypto) where
  unfoldable pub verify_key : Text → Text → Result AuthError Bool
  verify_key plaintext encoded = do
    (kind, v, parameters, salt64, digest64) ← some_or_bad (six_parts (split_from b'$' [] encoded))
    refuse_if (not (text_eq kind (codes "argon2id"))) bad_hash
    version ← some_or_bad (crypto.scan_version v)
    refuse_if (not (version == crypto.argon2_version)) bad_hash
    (memory, iterations, parallelism) ← some_or_bad (crypto.scan_parameters parameters)
    salt ← some_or_bad (crypto.base64_decode salt64)
    want ← some_or_bad (crypto.base64_decode digest64)
    let got = crypto.argon2_key plaintext salt iterations memory parallelism (length want)
    ok (text_eq got want)

  -- `encoding/hex`
  abbrev hex_digit : ℕ → ℕ
  hex_digit n = if ltb n 10 then b'0' + n else b'a' + (n - 10)

  abbrev pub hex : Text → Text
  hex [] = []
  hex (b ∷ s) = hex_digit (b / 16) ∷ hex_digit (b % 16) ∷ hex s

  -- The plaintext key and its prefix, from two random texts: 2 and 24 bytes.
  unfoldable pub generate_key : Text → Text → Text × Text
  generate_key pb sb =
      let prefix = key_prefix ++ (b'_' ∷ hex pb) in
      (prefix ++ (b'_' ∷ crypto.base64_encode sb), prefix)

unfoldable pub split_key : Text → Result AuthError Text
split_key plaintext = do
  refuse_if
      (leb (length plaintext) (prefix_len + 1)
        || not (has_prefix plaintext (key_prefix ++ (b'_' ∷ []))))
      key_malformed
  refuse_if (not (get_or plaintext prefix_len 0 == b'_')) key_malformed
  ok (take prefix_len plaintext)

abbrev pub verify_cache_max : ℕ
verify_cache_max = 4096

abbrev pub hour : ℕ
hour = 3600

abbrev pub minute : ℕ
minute = 60

unfoldable pub lookup : Text → List (Text × ℕ) → Option ℕ
lookup k [] = none
lookup k ((j, t) ∷ es) = if text_eq k j then some t else lookup k es

unfoldable pub assign : Text → ℕ → List (Text × ℕ) → List (Text × ℕ)
assign k t [] = (k, t) ∷ []
assign k t ((j, u) ∷ es) = if text_eq k j then (j, t) ∷ es else (j, u) ∷ assign k t es

-- `for k := range c.seen { delete(c.seen, k); if len(c.seen) < verifyCacheMax/2 { break } }`
unfoldable pub halve : List (Text × ℕ) → List (Text × ℕ)
halve [] = []
halve (e ∷ es) = let rest = halve es in if ltb (length es) (verify_cache_max / 2) then es else rest

-- The room that `add` makes.
unfoldable pub evict : ℕ → List (Text × ℕ) → List (Text × ℕ)
evict now seen =
    let recent = keep (λ e. not (ltb (e.1 + hour) now)) seen in
    if ltb (length seen) verify_cache_max
    then seen
    else if ltb (length recent) verify_cache_max
    then recent
    else halve recent

unfoldable pub add : Text → ℕ → List (Text × ℕ) → List (Text × ℕ)
add token now seen = assign token now (evict now seen)

-- A row of the join of `api_keys` and `users`.
pub record KeyRow : Type 0 where
  pub key : ApiKey
  pub user : User

unfoldable pub find_user : Text → List User → Option User
find_user id [] = none
find_user id (u ∷ us) = if text_eq u.id id then some u else find_user id us

-- The first row of the join with a prefix.
unfoldable pub find_key : Text → List User → List ApiKey → Option KeyRow
find_key prefix users [] = none
find_key prefix users (k ∷ ks) = elim (find_user k.user_id users) [
  | none ↦ find_key prefix users ks
  | some u ↦
      if text_eq k.prefix prefix
      then some (record { key = k; user = u })
      else find_key prefix users ks
]

unfoldable pub change_key : (ApiKey → Bool) → (ApiKey → ApiKey) → List ApiKey → List ApiKey
change_key p f [] = []
change_key p f (k ∷ ks) = (if p k then f k else k) ∷ change_key p f ks

abbrev recently : ℕ → Option ℕ → Bool
recently now none = false
recently now (some last) = ltb now (last + minute)

unfoldable pub touch_key : ℕ → Text → AuthState → AuthState
touch_key now key_id s = if recently now (lookup key_id s.last_used_flush) then s else record s {
  last_used_flush = assign key_id now s.last_used_flush;
  keys = change_key (λ k. text_eq k.id key_id) (λ k. record k { last_used_at = some now }) s.keys;
}

abbrev pub found_key : {A : Type 0} → Option A → Result AuthError A
found_key none = err key_unknown
found_key (some a) = ok a

module _ (crypto : Crypto) where
  unfoldable pub token : Text → Text → Text
  token key_id plaintext = crypto.sha256 (key_id ++ (0 ∷ plaintext))

  -- The part of `Authenticate` that the cache saves.
  unfoldable pub verified : ℕ → Text → ApiKey → AuthState → Result AuthError AuthState
  verified now plaintext key s =
      if is_some (lookup (token key.id plaintext) s.seen) then ok s else do
        right ← verify_key crypto plaintext key.hash
        refuse_if (not right) key_unknown
        ok (record s { seen = add (token key.id plaintext) now s.seen })

  unfoldable pub authenticate : ℕ → Text → AuthState → Result AuthError (Identity × AuthState)
  authenticate now plaintext s = do
    prefix ← split_key plaintext
    row ← found_key (find_key prefix s.users s.keys)
    let key = row.key
    let user = row.user
    refuse_if (is_some key.revoked_at) key_revoked
    s' ← verified now plaintext key s
    ok (
      record {
        key_id = key.id;
        user_id = user.id;
        user_name = user.name;
        team_id = user.team_id;
        is_admin = user.is_admin;
      },
      touch_key now key.id s',
    )

abbrev pub team_of : Option User → Text → Bool
team_of none team_id = false
team_of (some u) team_id = text_eq u.team_id team_id

-- The rows that the UPDATE of `RevokeKey` changes.
unfoldable pub revocable : List User → Text → Text → ApiKey → Bool
revocable users team_id key_id k =
    text_eq k.id key_id
    && (team_of (find_user k.user_id users) team_id && not (is_some k.revoked_at))

unfoldable pub any_key : (ApiKey → Bool) → List ApiKey → Bool
any_key p [] = false
any_key p (k ∷ ks) = p k || any_key p ks

unfoldable pub revoke_key : ℕ → Text → Text → AuthState → Result AuthError AuthState
revoke_key now team_id key_id s = do
  refuse_if (not (any_key (revocable s.users team_id key_id) s.keys)) not_found
  ok (record s {
    keys =
        change_key (revocable s.users team_id key_id) (λ k. record k { revoked_at = some now })
          s.keys;
  })
