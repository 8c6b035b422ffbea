-- ===== src/Consolidate/Attempts.antt =====
-- How often a completion is tried, and what is not tried again.
use dk_agent_memory.Consolidate.Backend.{
  Backend, Request, Response, Failure, token_budget, http_error, cancelled, other, after_attempts,
  Outcome,
}
use dk_agent_memory.Consolidate.Retry.{
  max_attempts, backoff, counted, final, transient, retry_after, pause, before_attempt, judged,
  attempts, complete_with_retry,
}
use dk_agent_memory.Base.{
  ℕ, zero, suc, ◌+◌, ◌-◌, ◌≤◌, ◌<◌, ◌≡◌, refl, sym, ap, ◌∙◌, ◌⊎◌, inl, inr, true, false, ◌&&◌, List,
  [], ◌∷◌, ◌++◌, arith, ltb, ◌==◌, ==_iff, Bool-cases, length, All, Text, Result, ok, err,
}

abbrev pub Answer : Type 0
Answer = Result Failure Response

-- A record of what the calls of the model came to, the latest first, which waiting leaves as it is.
pub record RecordsCalls {S : Type 0} (b : Backend S) (answers : S → List Answer) : Type 0 where
  pub one_call :
      (req : Request) (s : S) → answers (b.complete req s).1 ≡ (b.complete req s).0 ∷ answers s
  pub no_call : (d : ℕ) (s : S) → answers (b.wait d s) ≡ answers s

-- The errors that might clear: too many requests, an error on the server's side, and all that has no status,
-- but for a spent token budget.
pub data MightClear : Failure → Type 0 where
  throttled : {wait : ℕ} → MightClear (http_error 429 wait)
  server_side :
      {status wait : ℕ} → 500 ≤ status → status ≤ 599 → MightClear (http_error status wait)
  interrupted : MightClear cancelled
  unclassified : {text : Text} → MightClear (other text)
  wrapped : {n : ℕ} {e : Failure} → MightClear e → MightClear (after_attempts n e)

final-MightClear : (e : Failure) → final e ≡ false → MightClear e
unfolding final transient
final-MightClear token_budget f = cc
final-MightClear (http_error status wait) f = elim (Bool-cases (status == 429)) [
  | inl e ↦ rw ((==_iff status 429).0 e) throttled
  | inr e ↦ server_side (ground arith) (ground arith)
]
final-MightClear cancelled f = interrupted
final-MightClear (other text) f = unclassified
final-MightClear (after_attempts n e) f = wrapped (final-MightClear e f)

MightClear-final : (e : Failure) → MightClear e → final e ≡ false
unfolding final transient
MightClear-final _ throttled = refl
MightClear-final _ (server_side low high) = ground arith
MightClear-final _ interrupted = refl
MightClear-final _ unclassified = refl
MightClear-final _ (wrapped {n} {e} h) = MightClear-final e h

-- An answer behind which the loop goes on: an error that might clear.
pub data IsRetried : Answer → Type 0 where
  might_clear : {e : Failure} → MightClear e → IsRetried (err e)

-- What the loop returns behind the answers to its calls, the latest first. Each answer but the latest
-- is retried, and the latest decides.
pub data Ended {S : Type 0} (b : Backend S) (req : Request) (s' : S)
    : List Answer → Answer → Type 0 where
  answered :
      {earlier : List Answer} {resp : Response}
      → All IsRetried earlier
      → length earlier < 5
      → Ended b req s' (ok resp ∷ earlier) (ok (counted req resp))
  refused :
      {earlier : List Answer} {e : Failure}
      → All IsRetried earlier
      → length earlier < 5
      → ¬ (MightClear e)
      → Ended b req s' (err e ∷ earlier) (err e)
  stopped_in_call :
      {earlier : List Answer} {e : Failure}
      → All IsRetried earlier
      → length earlier < 5
      → b.is_cancelled s' ≡ true
      → Ended b req s' (err e ∷ earlier) (err cancelled)
  stopped_waiting :
      {answers : List Answer}
      → All IsRetried answers
      → 0 < length answers
      → length answers < 5
      → b.is_cancelled s' ≡ true
      → Ended b req s' answers (err cancelled)
  exhausted :
      {earlier : List Answer} {e : Failure}
      → All IsRetried (err e ∷ earlier)
      → length (err e ∷ earlier) ≡ 5
      → Ended b req s' (err e ∷ earlier) (err (after_attempts 5 e))

module _ {S : Type 0} (b : Backend S) (answers : S → List Answer)
    (law : RecordsCalls b answers) where
  answers-before :
      (attempt : ℕ) (last : Failure) (s : S) → answers (before_attempt b attempt last s) ≡ answers s
  unfolding before_attempt pause
  answers-before attempt last s = elim (Bool-cases (ltb 1 attempt)) [
    | inr e ↦ rw e refl
    | inl e ↦ elim (Bool-cases (ltb (backoff (attempt - 1)) (retry_after last))) [
      | inl e' ↦ rw (e, e') (law.no_call (retry_after last) s)
      | inr e' ↦ rw (e, e') (law.no_call (backoff (attempt - 1)) s)
    ]
  ]

  -- The calls of one completion: what they came to, and how the loop ends behind them.
  abbrev pub Tried : Request → List Answer → Outcome S Response → Type 0
  Tried req before o =
      (ours : List Answer) × (answers o.1 ≡ ours ++ before) × Ended b req o.1 ours o.0

  -- The loop under way: the answers so far, which are all retried, and the error of the latest.
  record Underway (left attempt : ℕ) (last : Failure) (past : List Answer) : Type 0 where
    retried : All IsRetried past
    number : attempt ≡ length past + 1
    rest : length past + left ≡ max_attempts
    latest : (a : Answer) (rs : List Answer) → past ≡ a ∷ rs → a ≡ err last

  used_up :
      (attempt : ℕ) (last : Failure) (req : Request) (past before : List Answer) (s : S)
      → Underway 0 attempt last past
      → answers s ≡ past ++ before
      → Tried req before (err (after_attempts max_attempts last), s)
  used_up attempt last req [] before s u same = absurd (omega (arith, u.rest))
  used_up attempt last req (a ∷ rs) before s u same =
      let is_last = u.latest a rs refl in
      let all : All IsRetried (err last ∷ rs) = rw (← is_last) u.retried in
      (err last ∷ rs, rw (← is_last) same, exhausted all (omega (arith, u.rest)))

  -- One call, and what it is judged to be.
  judged-Tried :
      (req : Request) (past before : List Answer) (o : Outcome S Response)
      → answers o.1 ≡ o.0 ∷ (past ++ before)
      → All IsRetried past
      → length past < max_attempts
      → ((r : Answer) × (judged b req o ≡ inl r) × Tried req before (r, o.1))
        ⊎ ((e : Failure) × (judged b req o ≡ inr e) × (o.0 ≡ err e) × (final e ≡ false))
  unfolding judged
  judged-Tried req past before (ok resp, s) same retried few =
      inl (ok (counted req resp), refl, (ok resp ∷ past, same, answered retried few))
  judged-Tried req past before (err e, s) same retried few = elim (Bool-cases (b.is_cancelled s)) [
    | inl c ↦ inl (err cancelled, rw c refl, (err e ∷ past, same, stopped_in_call retried few c))
    | inr c ↦ elim (Bool-cases (final e)) [
      | inl f ↦ inl (
        err e,
        rw (c, f) refl,
        (err e ∷ past, same, refused retried few (λ h. absurd (cc (f, MightClear-final e h)))),
      )
      | inr f ↦ inr (e, rw (c, f) refl, refl, f)
    ]
  ]

  attempts-Tried :
      (left attempt : ℕ) (last : Failure) (req : Request) (past before : List Answer) (s : S)
      → Underway left attempt last past
      → answers s ≡ past ++ before
      → Tried req before (attempts b left attempt last req s)
  unfolding attempts
  attempts-Tried zero attempt last req past before s u same =
      used_up attempt last req past before s u same
  attempts-Tried (suc left) attempt last req past before s u same =
      let paused = before_attempt b attempt last s in
      let tried = b.complete req paused in
      let still : answers paused ≡ past ++ before = answers-before attempt last s ∙ same in
      let one : answers tried.1 ≡ tried.0 ∷ (past ++ before) =
        law.one_call req paused ∙ ap (λ rs. tried.0 ∷ rs) still in
      let few : length past < max_attempts = omega (arith, u.rest) in
      elim (Bool-cases (ltb 1 attempt && b.is_cancelled paused)) [
        | inl c ↦
            let later : 0 < length past = ground (arith, c, u.number) in
            let gone : b.is_cancelled paused ≡ true = ground (arith, c) in
            rw (c, attempts) (past, still, stopped_waiting u.retried later few gone)
        | inr c ↦ elim (judged-Tried req past before tried one u.retried few) [
          | inl (r, j, ended) ↦ rw (c, j, attempts) ended
          | inr (e, j, is_e, f) ↦
              let u' : Underway left (attempt + 1) e (err e ∷ past) = record {
                retried = (might_clear (final-MightClear e f), u.retried);
                number = omega (arith, u.number);
                rest = omega (arith, u.rest);
                latest =
                    λ a rs q. ap (λ (xs : List Answer). elim xs [ [] ↦ err e | x ∷ r ↦ x ]) (sym q);
              } in
              rw (c, j, attempts)
                (attempts-Tried left (attempt + 1) e req (err e ∷ past) before tried.1 u'
                  (one ∙ ap (λ a. a ∷ (past ++ before)) is_e))
        ]
      ]

  -- A completion calls the model at most five times, and every answer before the latest is an error that might
  -- clear. A response ends the loop and is returned with its tokens counted; an error that would recur ends it
  -- at the call that it answers and is returned as it is; an error that might clear is returned only behind
  -- five calls, as that of the last attempt; and a cancellation is returned only if the context is cancelled.
  pub complete_with_retry-Ended :
      (req : Request) (s : S) → Tried req (answers s) (complete_with_retry b req s)
  unfolding complete_with_retry
  complete_with_retry-Ended req s =
      attempts-Tried max_attempts 1 (other []) req [] (answers s) s
        (record { retried = tt; number = refl; rest = refl; latest = λ a rs q. absurd (cc q) }) refl
