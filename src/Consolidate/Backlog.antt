-- ===== src/Consolidate/Backlog.antt =====
-- A drain over a backlog that its batches work off.
use dk_agent_memory.Consolidate.Drain.{Batch, drain_from}
use dk_agent_memory.Base.{
  ℕ, zero, suc, ◌+◌, ◌*◌, ◌<◌, ◌≡◌, refl, ◌⊎◌, inl, inr, Bool, false, none, arith, ltb, Bool-cases,
}

-- A batch that takes up to so many from a backlog, without an error, in a context that is not cancelled.
pub record WorksOff {S : Type 0} (is_cancelled : S → Bool) (batch : ℕ) (run : S → Batch × S)
    (backlog : S → ℕ) (Good : S → Type 0) : Type 0 where
  pub goes_on : (s : S) → Good s → is_cancelled s ≡ false
  pub stays_good : (s : S) → Good s → Good (run s).1
  pub no_error : (s : S) → Good s → (run s).0.1 ≡ none
  pub taken : (s : S) → Good s → backlog s ≡ (run s).0.0 + backlog (run s).1
  pub full : (s : S) → Good s → ((run s).0.0 ≡ batch) ⊎ (backlog (run s).1 ≡ 0)

module _ {S : Type 0} (is_cancelled : S → Bool) (batch : ℕ) (run : S → Batch × S) (backlog : S → ℕ)
    (Good : S → Type 0) (law : WorksOff is_cancelled batch run backlog Good) where
  pub drain_from-clears :
      (left i : ℕ) (s : S)
      → Good s
      → 0 < batch
      → backlog s < left * batch
      → ((drain_from is_cancelled batch run left i s).0.1 ≡ none)
        × (backlog (drain_from is_cancelled batch run left i s).1 ≡ 0)
  unfolding drain_from
  drain_from-clears zero i s good positive few = absurd (omega (arith, few))
  drain_from-clears (suc left) i s good positive few =
      let running = law.goes_on s good in
      let fine = law.no_error s good in
      let taken = law.taken s good in
      elim (Bool-cases (ltb (run s).0.0 batch)) [
        | inl e ↦
            rw (running, fine, e, drain_from)
              (
                refl,
                elim (law.full s good) [
                  | inl all_of_it ↦ absurd (ground (arith, e, all_of_it))
                  | inr cleared ↦ cleared
                ],
              )
        | inr e ↦
            rw (running, fine, e, drain_from)
              (drain_from-clears left (i + 1) (run s).1 (law.stays_good s good) positive
                (ground (arith, e, taken, few)))
      ]
