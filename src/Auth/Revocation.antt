-- ===== src/Auth/Revocation.antt =====
-- Revocation, what a successful authentication rests on, and the size of the cache.
use dk_agent_memory.Auth.{
  ApiKey, User, KeyRow, AuthState, Crypto, key_revoked, not_found, split_key, find_user, find_key,
  change_key, authenticate, revocable, any_key, revoke_key,
}
use dk_agent_memory.Base.{
  ℕ, ◌≡◌, refl, inl, inr, Bool, true, not, some, List, [], ◌∷◌, arith, if◌then◌else◌, Bool-cases,
  Option-cases, is_some, Text, text_eq, text_eq_iff, refuse_if, >>=-eq-ok, ok, err,
}

abbrev revoked : ℕ → ApiKey → ApiKey
revoked now k = record k { revoked_at = some now }

abbrev changed : (ApiKey → Bool) → ℕ → KeyRow → KeyRow
changed p now r = record r { key = if p r.key then revoked now r.key else r.key }

kept :
    (p : ApiKey → Bool) (now : ℕ) (j : ApiKey)
    → ((if p j then revoked now j else j).user_id ≡ j.user_id)
      × ((if p j then revoked now j else j).prefix ≡ j.prefix)
kept p now j = elim (Bool-cases (p j)) [ inl e ↦ rw e (refl, refl) | inr e ↦ rw e (refl, refl) ]

-- After a revocation, a lookup finds the row as it is then.
find_key-change_key :
    (p : ApiKey → Bool) (now : ℕ) (prefix : Text) (users : List User) (keys : List ApiKey)
    (r : KeyRow)
    → find_key prefix users keys ≡ some r
    → find_key prefix users (change_key p (revoked now) keys) ≡ some (changed p now r)
unfolding find_key change_key
find_key-change_key p now prefix users [] r e = cc
find_key-change_key p now prefix users (j ∷ js) r e =
    let rest = find_key-change_key p now prefix users js r in
    let (owner, marked) = kept p now j in
    elim (Option-cases (find_user j.user_id users)) [
      | inl none' ↦ rw (find_key, owner, none') (rest (ground (arith, none', e)))
      | inr (v, some') ↦ elim (Bool-cases (text_eq j.prefix prefix)) [
        | inl yes' ↦
            let here' : record { key = j; user = v } ≡ r = ground (arith, some', yes', e) in
            rw (← here', find_key, owner, some', marked, yes') refl
        | inr no' ↦ rw (find_key, owner, some', marked, no') (rest (ground (arith, some', no', e)))
      ]
    ]

find_key-find_user :
    (prefix : Text) (users : List User) (keys : List ApiKey) (r : KeyRow)
    → find_key prefix users keys ≡ some r
    → find_user r.key.user_id users ≡ some r.user
unfolding find_key
find_key-find_user prefix users [] r e = cc
find_key-find_user prefix users (j ∷ js) r e =
    let later = find_key-find_user prefix users js r in
    elim (Option-cases (find_user j.user_id users)) [
      | inl none' ↦ later (ground (arith, none', e))
      | inr (v, some') ↦ elim (Bool-cases (text_eq j.prefix prefix)) [
        | inl yes' ↦
            let here' : record { key = j; user = v } ≡ r = ground (arith, some', yes', e) in
            rw (← here') some'
        | inr no' ↦ later (ground (arith, some', no', e))
      ]
    ]

-- If a revocation succeeds, then from that moment on a presented key whose row has the revoked
-- identifier and a user of the revoking team is refused as revoked, whatever the cache holds.
pub revoke_key-authenticate :
    (crypto : Crypto) (now later : ℕ) (team_id key_id plaintext prefix : Text) (s s' : AuthState)
    (r : KeyRow)
    → revoke_key now team_id key_id s ≡ ok s'
    → split_key plaintext ≡ ok prefix
    → find_key prefix s.users s.keys ≡ some r
    → r.key.id ≡ key_id
    → r.user.team_id ≡ team_id
    → authenticate crypto later plaintext s' ≡ err key_revoked
unfolding revoke_key authenticate revocable
revoke_key-authenticate crypto now later team_id key_id plaintext prefix s s' r e split found same
      team =
    let p = revocable s.users team_id key_id in
    let (_, _, e1) = >>=-eq-ok (refuse_if (not (any_key p s.keys)) not_found) _ e in
    let after : s' ≡ record s { keys = change_key p (revoked now) s.keys } = ground (arith, e1) in
    let owner = find_key-find_user prefix s.users s.keys r found in
    let found' = find_key-change_key p now prefix s.users s.keys r found in
    let dead : is_some (changed p now r).key.revoked_at ≡ true = elim (Bool-cases (p r.key)) [
      | inl hit ↦ rw hit refl
      | inr miss ↦
          let own = (text_eq_iff r.key.id key_id).1 same in
          let team' = (text_eq_iff r.user.team_id team_id).1 team in
          let gone : is_some r.key.revoked_at ≡ true = ground (arith, own, owner, team', miss) in
          rw miss gone
    ] in
    rw (after, split, found', dead) refl
