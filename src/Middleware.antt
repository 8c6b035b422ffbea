-- ===== src/Middleware.antt =====
-- internal/api/middleware.go: who may call a route, and how often.
--
-- A check returns its verdict and the server's state after it. `Float` is the float64 arithmetic of
-- the token buckets; `is_loopback` is what package `net` says of a remote address.
pub mod Access
mod Tests
use dk_agent_memory.Store.Model.{Identity}
use dk_agent_memory.Auth.{
  AuthError, AuthState, Crypto, authenticate, key_revoked, key_unknown, key_malformed,
}
use dk_agent_memory.Base.{
  ℕ, ◌+◌, ◌-◌, Bool, not, ◌&&◌, ◌||◌, Option, none, some, List, [], ◌∷◌, map, ltb, ◌==◌,
  if◌then◌else◌, length, take, drop, keep, Text, codes, text_eq, is_empty, Result, ◌>>=◌, ◌>>◌,
  refuse_if, trim_space, to_lower, index_byte, ok, err,
}

pub record Request : Type 0 where
  pub method : Text
  pub authorization : Text
  pub tls : Bool
  pub forwarded_proto : Text
  pub remote_addr : Text

pub data ApiError : Type 0 where
  missing_authorization malformed_authorization plaintext_refused : ApiError
  revoked_key invalid_key internal admin_only : ApiError
  rate_limited : ℕ → ApiError

pub record Float : Type 1 where
  pub F : Type 0
  pub of_int : ℕ → F
  pub plus : F → F → F
  pub minus : F → F → F
  pub times : F → F → F
  pub over : F → F → F
  pub less : F → F → Bool
  pub truncate : F → ℕ
  pub minutes : ℕ → F

-- `strings.EqualFold` on ASCII
abbrev pub equal_fold : Text → Text → Bool
equal_fold s t = text_eq (map to_lower s) (map to_lower t)

abbrev pub bearer_of : Text → Option ℕ → Result ApiError Text
bearer_of h none = err malformed_authorization
bearer_of h (some i) =
    if not (equal_fold (take i h) (codes "bearer")) || is_empty (trim_space (drop (i + 1) h))
    then err malformed_authorization
    else ok (trim_space (drop (i + 1) h))

unfoldable pub bearer_token : Text → Result ApiError Text
bearer_token h = if is_empty h then err missing_authorization else bearer_of h (index_byte b' ' h)

unfoldable pub is_secure_request : (Text → Bool) → Request → Bool
is_secure_request is_loopback r =
    r.tls || (equal_fold r.forwarded_proto (codes "https") || is_loopback r.remote_addr)

-- The switch on the errors of `Authenticate`.
abbrev pub auth_error : AuthError → ApiError
auth_error key_revoked = revoked_key
auth_error key_unknown = invalid_key
auth_error key_malformed = invalid_key
auth_error _ = internal

module _ (float : Float) where
  pub record Bucket : Type 0 where
    pub write_tokens : float.F
    pub read_tokens : float.F
    pub last : ℕ

  pub record Limiter : Type 0 where
    pub buckets : List (Text × Bucket)
    pub writes : ℕ
    pub reads : ℕ

  unfoldable pub bucket_of : Text → List (Text × Bucket) → Option Bucket
  bucket_of k [] = none
  bucket_of k ((j, b) ∷ bs) = if text_eq k j then some b else bucket_of k bs

  unfoldable pub set_bucket : Text → Bucket → List (Text × Bucket) → List (Text × Bucket)
  set_bucket k b [] = (k, b) ∷ []
  set_bucket k b ((j, c) ∷ bs) = if text_eq k j then (j, b) ∷ bs else (j, c) ∷ set_bucket k b bs

  -- `evictLocked`; a time is a number of seconds.
  unfoldable pub evict_locked : ℕ → List (Text × Bucket) → List (Text × Bucket)
  evict_locked now bs = keep (λ e. not (ltb (e.1.last + 600) now)) bs

  abbrev pub min_f : float.F → float.F → float.F
  min_f a b = if float.less a b then a else b

  abbrev is_write : Text → Bool
  is_write method =
      not (text_eq method (codes "GET"))
      && (not (text_eq method (codes "HEAD")) && not (text_eq method (codes "OPTIONS")))

  -- The bucket of a key, and the buckets with it. A new one is entered before old ones are evicted.
  abbrev bucket_or_new : ℕ → Text → Limiter → Option Bucket → Bucket × List (Text × Bucket)
  bucket_or_new now key_id l (some b) = (b, l.buckets)
  bucket_or_new now key_id l none =
      let b : Bucket = record {
        write_tokens = float.of_int l.writes;
        read_tokens = float.of_int l.reads;
        last = now;
      } in
      let bs = set_bucket key_id b l.buckets in
      (b, if ltb 10000 (length bs) then evict_locked now bs else bs)

  abbrev refill : ℕ → ℕ → Bucket → float.F → float.F
  refill now rate b tokens =
      min_f (float.of_int rate)
        (float.plus tokens (float.times (float.minutes (now - b.last)) (float.of_int rate)))

  unfoldable pub allow : ℕ → Text → Text → Limiter → Option ApiError × Limiter
  allow now key_id method l =
      let write = is_write method in
      let limit = if write then l.writes else l.reads in
      let (b, bs) = bucket_or_new now key_id l (bucket_of key_id l.buckets) in
      let filled : Bucket = record {
        write_tokens = refill now l.writes b b.write_tokens;
        read_tokens = refill now l.reads b b.read_tokens;
        last = now;
      } in
      let tokens = if write then filled.write_tokens else filled.read_tokens in
      let one = float.of_int 1 in
      let left = float.minus tokens one in
      let taken =
        if write
        then record filled { write_tokens = left }
        else record filled { read_tokens = left } in
      let wait =
        float.truncate
          (float.times (float.over (float.minus one tokens) (float.of_int limit)) (float.of_int 60))
        + 1 in
      if limit == 0
      then (none, l)
      else if float.less tokens one
      then (some (rate_limited wait), record l { buckets = set_bucket key_id filled bs })
      else (none, record l { buckets = set_bucket key_id taken bs })

  pub record ServerState : Type 0 where
    pub auth : AuthState
    pub limiter : Limiter

  -- The server's configuration, and what it knows of addresses.
  module _ (crypto : Crypto) (is_loopback : Text → Bool) (require_https : Bool) where
    abbrev pub presented : Request → Result ApiError Text
    presented r = do
      token ← bearer_token r.authorization
      refuse_if (require_https && not (is_secure_request is_loopback r)) plaintext_refused
      ok token

    abbrev pub limited :
        ℕ
        → Request
        → ServerState
        → Result AuthError (Identity × AuthState)
        → Result ApiError Identity × ServerState
    limited now r s (err e) = (err (auth_error e), s)
    limited now r s (ok (id, auth)) =
        let (verdict, limiter) = allow now id.key_id r.method s.limiter in
        (elim verdict [ none ↦ ok id | some e ↦ err e ], record { auth = auth; limiter = limiter })

    abbrev pub authenticated :
        ℕ → Request → ServerState → Result ApiError Text → Result ApiError Identity × ServerState
    authenticated now r s (err e) = (err e, s)
    authenticated now r s (ok token) = limited now r s (authenticate crypto now token s.auth)

    -- The identity that the handler runs under, or the error that the client gets.
    unfoldable pub require_auth : ℕ → Request → ServerState → Result ApiError Identity × ServerState
    require_auth now r s = authenticated now r s (presented r)

    unfoldable pub require_admin :
        ℕ → Request → ServerState → Result ApiError Identity × ServerState
    require_admin now r s =
        let (verdict, s') = require_auth now r s in
        (do id ← verdict; refuse_if (not id.is_admin) admin_only; ok id, s')
