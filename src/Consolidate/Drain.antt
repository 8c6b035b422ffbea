-- ===== src/Consolidate/Drain.antt =====
-- internal/consolidate/worker.go: a loop over batches.
use dk_agent_memory.Consolidate.Backend.{Failure, cancelled}
use dk_agent_memory.Base.{ℕ, zero, suc, ◌+◌, ◌-◌, Bool, true, false, Option, none, some, ltb}

abbrev pub max_drain_batches : ℕ
max_drain_batches = 200

-- What a call of a batch returns: a count, and an error beside it.
abbrev pub Batch : Type 0
Batch = ℕ × Option Failure

module _ {S : Type 0} (is_cancelled : S → Bool) (batch : ℕ) (run : S → Batch × S) where
  -- `left` rounds are left of the loop, and `i` is the round under way.
  unfoldable pub drain_from : ℕ → ℕ → S → Batch × S
  drain_from zero i s = ((i - 1, none), s)
  drain_from (suc left) i s =
      let done = run s in
      elim (is_cancelled s) [
        | true ↦ ((i - 1, some cancelled), s)
        | false ↦ elim done.0.1 [
          | some e ↦ ((i, some e), done.1)
          | none ↦ elim (ltb done.0.0 batch) [
            | true ↦ ((i, none), done.1)
            | false ↦ drain_from left (i + 1) done.1
          ]
        ]
      ]

  unfoldable pub drain_loop : ℕ → S → Batch × S
  unfolding drain_from
  drain_loop max s = drain_from max 1 s
