-- ===== src/Consolidate/Retry.antt =====
-- internal/consolidate/llm.go: a completion, and what is tried again.
use dk_agent_memory.Consolidate.Backend.{
  Backend, Request, Response, Failure, token_budget, http_error, cancelled, other, after_attempts,
  Outcome,
}
use dk_agent_memory.Base.{
  ℕ, zero, suc, ◌+◌, ◌-◌, ◌*◌, ◌/◌, ◌^◌, ◌⊎◌, inl, inr, Bool, true, false, not, ◌&&◌, ◌||◌, [],
  ◌++◌, ltb, leb, ◌==◌, if◌then◌else◌, length, Text, Result, ok, err,
}

abbrev pub max_attempts : ℕ
max_attempts = 5

-- Three seconds, in nanoseconds.
abbrev pub backoff_base : ℕ
backoff_base = 3 * 10 ^ 9

unfoldable pub tripled : ℕ → ℕ → ℕ
tripled zero d = d
tripled (suc n) d = tripled n (d * 3)

-- The loop runs from 1 to below the attempt.
unfoldable pub backoff : ℕ → ℕ
unfolding tripled
backoff attempt = tripled (attempt - 1) backoff_base

unfoldable pub transient : ℕ → Bool
transient status = (status == 429) || leb 500 status && leb status 599

unfoldable pub estimate : Text → ℕ
estimate s = length s / 4 + 1

unfoldable pub counted : Request → Response → Response
unfolding estimate
counted req resp =
    if (resp.input_tokens == 0) && (resp.output_tokens == 0)
    then record resp {
      input_tokens = estimate (req.system ++ req.prompt);
      output_tokens = estimate resp.text;
      estimated = true;
    }
    else resp

-- `errors.Is(err, ErrTokenBudget)`, through the wrapping.
unfoldable pub is_token_budget : Failure → Bool
is_token_budget token_budget = true
is_token_budget (after_attempts n e) = is_token_budget e
is_token_budget _ = false

-- `RetryAfter` of an `httpError`, 0 for another error.
unfoldable pub retry_after : Failure → ℕ
retry_after (http_error status wait) = wait
retry_after (after_attempts n e) = retry_after e
retry_after _ = 0

-- The errors that `completeWithRetry` returns at once.
unfoldable pub final : Failure → Bool
unfolding transient
final token_budget = true
final (http_error status wait) = not (transient status)
final (after_attempts n e) = final e
final _ = false

module _ {S : Type 0} (b : Backend S) where
  -- The wait before an attempt, which the context may cut short.
  unfoldable pub pause : ℕ → Failure → S → S
  unfolding backoff retry_after
  pause attempt last s =
      if ltb (backoff (attempt - 1)) (retry_after last)
      then b.wait (retry_after last) s
      else b.wait (backoff (attempt - 1)) s

  unfoldable pub before_attempt : ℕ → Failure → S → S
  unfolding pause
  before_attempt attempt last s = if ltb 1 attempt then pause attempt last s else s

  -- What an attempt comes to: an end of the loop, or the error with which it goes on.
  unfoldable pub judged : Request → Outcome S Response → Result Failure Response ⊎ Failure
  unfolding counted final
  judged req (ok resp, s) = inl (ok (counted req resp))
  judged req (err e, s) =
      if b.is_cancelled s then inl (err cancelled) else if final e then inl (err e) else inr e

  -- The attempts left, the number of the next one, and the error of the last.
  unfoldable pub attempts : ℕ → ℕ → Failure → Request → S → Outcome S Response
  unfolding before_attempt judged
  attempts zero attempt last req s = (err (after_attempts max_attempts last), s)
  attempts (suc left) attempt last req s =
      let paused = before_attempt attempt last s in
      let tried = b.complete req paused in
      elim (ltb 1 attempt && b.is_cancelled paused) [
        | true ↦ (err cancelled, paused)
        | false ↦ elim (judged req tried) [
          | inl result ↦ (result, tried.1)
          | inr e ↦ attempts left (attempt + 1) e req tried.1
        ]
      ]

  unfoldable pub complete_with_retry : Request → S → Outcome S Response
  unfolding attempts
  complete_with_retry req s = attempts max_attempts 1 (other []) req s
