-- ===== src/Middleware/Access.antt =====
-- What a request must have for a handler to run.
use dk_agent_memory.Store.Model.{Identity}
use dk_agent_memory.Auth.{AuthError, AuthState, Crypto, authenticate}
use dk_agent_memory.Middleware.{
  Request, ApiError, Float, plaintext_refused, admin_only, bearer_token, is_secure_request,
  ServerState, allow, presented, limited, authenticated, require_auth, require_admin,
}
use dk_agent_memory.Base.{
  ℕ, ◌≡◌, refl, ap, ◌∙◌, inl, inr, Bool, true, false, not, ◌&&◌, arith, Option-cases, Text, Result,
  refuse_if, ok_inj, >>=-eq-ok, refuse_if-eq-ok, ok, err,
}

module _ (float : Float) (crypto : Crypto) (is_loopback : Text → Bool) (require_https : Bool) where
  -- A request that may pass: its key is accepted, and its connection is secure where that is required.
  pub record Passes (now : ℕ) (r : Request) (s : ServerState float) (id : Identity) : Type 0 where
    pub key : Text
    pub auth : AuthState
    pub bearer : bearer_token r.authorization ≡ ok key
    pub accepted : authenticate crypto now key s.auth ≡ ok (id, auth)
    pub secure : require_https && not (is_secure_request is_loopback r) ≡ false

  limited-ok :
      (now : ℕ) (r : Request) (s : ServerState float)
      (result : Result AuthError (Identity × AuthState)) (id : Identity)
      → (limited float crypto is_loopback require_https now r s result).0 ≡ ok id
      → (auth : AuthState) × (result ≡ ok (id, auth))
  limited-ok now r s (err e) id h = cc
  limited-ok now r s (ok (id', auth)) id h =
      elim (Option-cases (allow float now id'.key_id r.method s.limiter).0) [
        | inl e ↦
            let same : id' ≡ id = ok_inj {E = ApiError} (rw (e, limited) at h) in
            (auth, ap (λ i. ok (i, auth)) same)
        | inr (x, e) ↦ absurd (ground (arith, e, h))
      ]

  authenticated-ok :
      (now : ℕ) (r : Request) (s : ServerState float) (p : Result ApiError Text) (id : Identity)
      → (authenticated float crypto is_loopback require_https now r s p).0 ≡ ok id
      → (key : Text) × (auth : AuthState) × (p ≡ ok key)
        × (authenticate crypto now key s.auth ≡ ok (id, auth))
  authenticated-ok now r s (err e) id h = cc
  authenticated-ok now r s (ok key) id h =
      let (auth, ran) = limited-ok now r s (authenticate crypto now key s.auth) id h in
      (key, auth, refl, ran)

  require_auth-Passes :
      (now : ℕ) (r : Request) (s : ServerState float) (id : Identity)
      → (require_auth float crypto is_loopback require_https now r s).0 ≡ ok id
      → Passes now r s id
  unfolding require_auth
  require_auth-Passes now r s id h =
      let (key, auth, given, ran) =
        authenticated-ok now r s (presented float crypto is_loopback require_https r) id h in
      let (key', bearer, e1) = >>=-eq-ok (bearer_token r.authorization) _ given in
      let bad = require_https && not (is_secure_request is_loopback r) in
      let (_, secure, e2) = >>=-eq-ok (refuse_if bad plaintext_refused) _ e1 in
      let same : key' ≡ key = ok_inj e2 in
      record {
        key = key;
        auth = auth;
        bearer = bearer ∙ ap ok same;
        accepted = ran;
        secure = refuse_if-eq-ok bad plaintext_refused secure;
      }

  -- A handler for administrators runs only for a request whose bearer token is accepted by
  -- `Authenticate` as the key of an administrator, and over a secure connection if one is required.
  pub require_admin-Passes :
      (now : ℕ) (r : Request) (s : ServerState float) (id : Identity)
      → (require_admin float crypto is_loopback require_https now r s).0 ≡ ok id
      → Passes now r s id × (id.is_admin ≡ true)
  unfolding require_admin
  require_admin-Passes now r s id h =
      let (id', ran, h1) =
        >>=-eq-ok (require_auth float crypto is_loopback require_https now r s).0 _ h in
      let (_, admin, h2) = >>=-eq-ok (refuse_if (not id'.is_admin) admin_only) _ h1 in
      let same = ok_inj h2 in
      let flag = refuse_if-eq-ok (not id'.is_admin) admin_only admin in
      let passed = require_auth-Passes now r s id (ran ∙ ap ok same) in
      (passed, ground (arith, flag, ap (λ (i : Identity). i.is_admin) same))
