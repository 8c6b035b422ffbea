-- ===== src/Auth/Cache.antt =====
-- The cache of verified keys: its size, and what a successful authentication rests on.
use dk_agent_memory.Auth.{
  ApiKey, KeyRow, AuthState, Crypto, key_revoked, key_unknown, verify_key, split_key,
  verify_cache_max, lookup, assign, halve, evict, add, find_key, touch_key, found_key, token,
  verified, authenticate,
}
use dk_agent_memory.Store.Model.{Identity}
use dk_agent_memory.Base.{
  ℕ, ◌+◌, ◌≤◌, ◌<◌, ◌≡◌, refl, sym, ap, ◌∙◌, ◌⊎◌, inl, inr, true, false, not, Option, none, some,
  List, [], ◌∷◌, arith, ltb, Bool-cases, is_some, length, keep, Text, text_eq, ◌>>=◌, ◌>>◌,
  refuse_if, ok_inj, >>=-eq-ok, refuse_if-eq-ok, ok,
}

length-assign : (k : Text) (t : ℕ) (es : List (Text × ℕ)) → length (assign k t es) ≤ length es + 1
unfolding assign
length-assign k t [] = omega arith
length-assign k t ((j, u) ∷ es) = elim (Bool-cases (text_eq k j)) [
  | inl e ↦ rw e (omega arith)
  | inr e ↦ rw e (omega (arith, length-assign k t es))
]

length-halve : (es : List (Text × ℕ)) → length (halve es) < 2048
unfolding halve
length-halve [] = omega arith
length-halve (e ∷ es) = ground (arith, length-halve es)

length-evict : (now : ℕ) (seen : List (Text × ℕ)) → length (evict now seen) < verify_cache_max
unfolding evict
length-evict now seen =
    let recent = keep (λ e. not (ltb (e.1 + 3600) now)) seen in ground (arith, length-halve recent)

found_key-eq-ok : {A : Type 0} (o : Option A) {a : A} → found_key o ≡ ok a → o ≡ some a
found_key-eq-ok none e = cc
found_key-eq-ok (some b) e = cc

is_some-eq-false : {A : Type 0} (o : Option A) → is_some o ≡ false → o ≡ none
is_some-eq-false none e = refl
is_some-eq-false (some a) e = cc

touch_key-seen : (now : ℕ) (key_id : Text) (s : AuthState) → (touch_key now key_id s).seen ≡ s.seen
unfolding touch_key
touch_key-seen now key_id s = ground arith

module _ (crypto : Crypto) (now : ℕ) (plaintext : Text) where
  verified-cases :
      (key : ApiKey) (s s' : AuthState)
      → verified crypto now plaintext key s ≡ ok s'
      → ((s' ≡ s) × (is_some (lookup (token crypto key.id plaintext) s.seen) ≡ true))
        ⊎ ((s' ≡ record s { seen = add (token crypto key.id plaintext) now s.seen })
            × (verify_key crypto plaintext key.hash ≡ ok true))
  unfolding verified
  verified-cases key s s' e =
      elim (Bool-cases (is_some (lookup (token crypto key.id plaintext) s.seen))) [
        | inl hit ↦ inl (ground (arith, hit, e), hit)
        | inr miss ↦
            let e' : (do
              right ← verify_key crypto plaintext key.hash
              refuse_if (not right) key_unknown
              ok (record s { seen = add (token crypto key.id plaintext) now s.seen }))
                ≡ ok s' =
              ground (arith, miss, e) in
            let (right, checks, e1) = >>=-eq-ok (verify_key crypto plaintext key.hash) _ e' in
            let (_, right', e2) = >>=-eq-ok (refuse_if (not right) key_unknown) _ e1 in
            let yes' : right ≡ true =
              ground (arith, refuse_if-eq-ok (not right) key_unknown right') in
            inr (ground (arith, e2), checks ∙ ap ok yes')
      ]

  -- What a successful authentication rests on.
  pub record Accepted (s : AuthState) (id : Identity) : Type 0 where
    pub prefix : Text
    pub row : KeyRow
    pub split : split_key plaintext ≡ ok prefix
    pub found : find_key prefix s.users s.keys ≡ some row
    pub not_revoked : row.key.revoked_at ≡ none
    pub identity : id ≡ record {
      key_id = row.key.id;
      user_id = row.user.id;
      user_name = row.user.name;
      team_id = row.user.team_id;
      is_admin = row.user.is_admin;
    }
    pub proved :
        (is_some (lookup (token crypto row.key.id plaintext) s.seen) ≡ true)
        ⊎ (verify_key crypto plaintext row.key.hash ≡ ok true)

  -- If a presented key is accepted and the cache has at most 4096 tokens, then its prefix finds a row of a key and its user that is not
  -- revoked, the identity is that row's, and the key either was verified against the row's hash in
  -- this call or is in the cache under the row's identifier; and the cache still has at most 4096.
  pub authenticate-Accepted :
      (s s' : AuthState) (id : Identity)
      → authenticate crypto now plaintext s ≡ ok (id, s')
      → length s.seen ≤ 4096
      → Accepted s id × (length s'.seen ≤ 4096)
  unfolding authenticate add
  authenticate-Accepted s s' id e small =
      let (prefix, split, e1) = >>=-eq-ok (split_key plaintext) _ e in
      let (row, found, e2) = >>=-eq-ok (found_key (find_key prefix s.users s.keys)) _ e1 in
      let (_, live, e3) = >>=-eq-ok (refuse_if (is_some row.key.revoked_at) key_revoked) _ e2 in
      let (s1, did, e4) = >>=-eq-ok (verified crypto now plaintext row.key s) _ e3 in
      let live' = refuse_if-eq-ok (is_some row.key.revoked_at) key_revoked live in
      let cases = verified-cases row.key s s1 did in
      let same_pair = ok_inj e4 in
      let same_id = ap (λ (r : Identity × AuthState). r.0) same_pair in
      let after = ap (λ (r : Identity × AuthState). r.1) same_pair in
      (
        record {
          prefix = prefix;
          row = row;
          split = split;
          found = found_key-eq-ok (find_key prefix s.users s.keys) found;
          not_revoked = is_some-eq-false row.key.revoked_at live';
          identity = sym same_id;
          proved = elim cases [ inl (_, hit) ↦ inl hit | inr (_, checks) ↦ inr checks ];
        },
        let kept = touch_key-seen now row.key.id s1 in
            let same_seen : s'.seen ≡ s1.seen = ap (λ (t : AuthState). t.seen) (sym after) ∙ kept in
            rw same_seen (elim cases [
              | inl (same, _) ↦ rw same small
              | inr (same, _) ↦
                  let more =
                    length-assign (token crypto row.key.id plaintext) now (evict now s.seen) in
                  let few = length-evict now s.seen in rw same (omega (arith, more, few))
            ]),
      )
