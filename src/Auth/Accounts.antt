-- ===== src/Auth/Accounts.antt =====
-- internal/store/auth.go: teams, users, issuing a key, and the first start.
--
-- Random bytes, the fresh identifier and the time are arguments. Postgres checks the unique constraints
-- of a row before its foreign keys.
use dk_agent_memory.Auth.{
  ApiKey, User, AuthError, AuthState, Crypto, not_found, conflict, id_required, unique_violation,
  find_user, generate_key, any_key,
}
use dk_agent_memory.Base.{
  ℕ, ◌<◌, ◌≡◌, refl, ap, inl, inr, Bool, true, false, not, ◌||◌, Option, none, some, List, [], ◌∷◌,
  ◌++◌, arith, ltb, if◌then◌else◌, Bool-cases, is_some, length, Text, codes, text_eq, is_empty,
  Result, ◌>>=◌, ◌>>◌, refuse_if, ok_inj, >>=-eq-ok, trim_space, ok, err,
}

pub record Team : Type 0 where
  pub id : Text
  pub name : Text

pub record Accounts : Type 0 where
  pub teams : List Team
  pub auth : AuthState

abbrev pub has_team : Text → List Team → Bool
has_team id [] = false
has_team id (t ∷ ts) = text_eq t.id id || has_team id ts

abbrev pub name_or : Text → Text → Text
name_or name id = if is_empty name then id else name

unfoldable pub create_team : Text → Text → Accounts → Result AuthError Accounts
create_team id name a = do
  refuse_if (is_empty (trim_space id)) id_required
  refuse_if (has_team (trim_space id) a.teams) conflict
  ok (record a {
    teams = record { id = trim_space id; name = name_or name (trim_space id) } ∷ a.teams;
  })

unfoldable pub create_user : Text → Text → Text → Bool → Accounts → Result AuthError Accounts
create_user id team_id name is_admin a = do
  refuse_if (is_empty (trim_space id)) id_required
  refuse_if (is_empty (trim_space team_id)) id_required
  refuse_if (is_some (find_user (trim_space id) a.auth.users)) conflict
  refuse_if (not (has_team (trim_space team_id) a.teams)) not_found
  let user : User = record {
    id = trim_space id;
    team_id = trim_space team_id;
    name = name_or name (trim_space id);
    is_admin = is_admin;
  }
  ok (record a { auth = record a.auth { users = user ∷ a.auth.users } })

module _ (crypto : Crypto) where
  -- The parameters are 19 MiB, two passes, one thread and 32 bytes.
  unfoldable pub hash_key : Text → Text → Text
  hash_key salt plaintext =
      codes "$argon2id$v="
      ++ (crypto.decimal crypto.argon2_version
          ++ (codes "$m=19456,t=2,p=1$"
              ++ (crypto.base64_encode salt
                  ++ (b'$'
                      ∷ crypto.base64_encode (crypto.argon2_key plaintext salt 19456 2 1 32)))))

  -- The random bytes of a key and of its salt, and its identifier.
  pub record Fresh : Type 0 where
    pub prefix_bytes : Text
    pub secret_bytes : Text
    pub salt : Text
    pub id : Text

  -- The unique constraints of the columns `id` and `prefix`.
  abbrev taken : Fresh → ApiKey → Bool
  taken fresh k =
      text_eq k.id fresh.id
      || text_eq k.prefix (generate_key crypto fresh.prefix_bytes fresh.secret_bytes).1

  unfoldable pub issue_key :
      Fresh → ℕ → Text → Text → Accounts → Result AuthError (ApiKey × Text × Accounts)
  issue_key fresh now user_id label a = do
    let (plaintext, prefix) = generate_key crypto fresh.prefix_bytes fresh.secret_bytes
    let key : ApiKey = record {
      id = fresh.id;
      user_id = user_id;
      prefix = prefix;
      hash = hash_key fresh.salt plaintext;
      label = label;
      created_at = now;
      last_used_at = none;
      revoked_at = none;
    }
    refuse_if (any_key (taken fresh) a.auth.keys) unique_violation
    refuse_if (not (is_some (find_user user_id a.auth.users))) not_found
    ok (key, plaintext, record a { auth = record a.auth { keys = key ∷ a.auth.keys } })

  -- `err != nil && !errors.Is(err, ErrConflict)`
  abbrev pub unless_conflict : Accounts → Result AuthError Accounts → Result AuthError Accounts
  unless_conflict a (ok a') = ok a'
  unless_conflict a (err conflict) = ok a
  unless_conflict a (err e) = err e

  abbrev pub issued : ApiKey × Text × Accounts → Option (ApiKey × Text) × Accounts
  issued (key, plaintext, a) = (some (key, plaintext), a)

  -- `none` is a nil key.
  unfoldable pub bootstrap :
      Fresh
      → ℕ
      → (team_id team_name user_id user_name : Text) → Accounts
      → Result AuthError (Option (ApiKey × Text) × Accounts)
  bootstrap fresh now team_id team_name user_id user_name a =
      if ltb 0 (length a.auth.keys) then ok (none, a) else do
        with_team ← unless_conflict a (create_team team_id team_name a)
        with_user ← unless_conflict with_team (create_user user_id team_id user_name true with_team)
        key ← issue_key fresh now user_id (codes "bootstrap admin key") with_user
        ok (issued key)

  issue_key-keys :
      (fresh : Fresh) (now : ℕ) (user_id label : Text) (a : Accounts)
      (result : ApiKey × Text × Accounts)
      → issue_key fresh now user_id label a ≡ ok result
      → 0 < length (issued result).1.auth.keys
  unfolding issue_key
  issue_key-keys fresh now user_id label a result e =
      let (_, _, e1) =
        >>=-eq-ok (refuse_if (any_key (taken fresh) a.auth.keys) unique_violation) _ e in
      let (_, _, e2) =
        >>=-eq-ok (refuse_if (not (is_some (find_user user_id a.auth.users))) not_found) _ e1 in
      let more = ap (λ (t : ApiKey × Text × Accounts). length (issued t).1.auth.keys) (ok_inj e2) in
      rw (← more) (omega arith)

  -- After a first start that issued a key, every further start issues none and changes nothing.
  pub bootstrap-once :
      (fresh fresh' : Fresh) (now now' : ℕ) (team_id team_name user_id user_name : Text)
      (a a' : Accounts) (key : ApiKey × Text)
      → bootstrap fresh now team_id team_name user_id user_name a ≡ ok (some key, a')
      → bootstrap fresh' now' team_id team_name user_id user_name a' ≡ ok (none, a')
  unfolding bootstrap
  bootstrap-once fresh fresh' now now' team_id team_name user_id user_name a a' key e =
      elim (Bool-cases (ltb 0 (length a.auth.keys))) [
        | inl some' ↦ absurd (ground (arith, some', e))
        | inr none' ↦
            let e0 = rw none' at e in
            let (t, _, e1) = >>=-eq-ok (unless_conflict a (create_team team_id team_name a)) _ e0 in
            let (u, _, e2) =
              >>=-eq-ok (unless_conflict t (create_user user_id team_id user_name true t)) _ e1 in
            let (result, made, e3) =
              >>=-eq-ok (issue_key fresh now user_id (codes "bootstrap admin key") u) _ e2 in
            let same =
              ap (λ (r : Option (ApiKey × Text) × Accounts). length r.1.auth.keys) (ok_inj e3) in
            let many =
              issue_key-keys fresh now user_id (codes "bootstrap admin key") u result made in
            let full : ltb 0 (length a'.auth.keys) ≡ true = ground (arith, same, many) in
            rw full refl
      ]
