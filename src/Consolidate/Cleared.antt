-- ===== src/Consolidate/Cleared.antt =====
-- A drain of the session summaries works off every session that waits.
use dk_agent_memory.Consolidate.Progress.{Cooperates, without, without-front, Distinct, round-Fine}
use dk_agent_memory.Consolidate.Backend.{Backend, Session}
use dk_agent_memory.Consolidate.Prompt.{Wording}
use dk_agent_memory.Consolidate.Drain.{Batch, drain_loop, max_drain_batches}
use dk_agent_memory.Consolidate.Backlog.{WorksOff, drain_from-clears}
use dk_agent_memory.Consolidate.Tier1.{
  tier1_batch, tier1_observations, Tally, no_tally, observed, summarise_all, started, claimed,
  tier1_once, drain_tier1, closing,
}
use dk_agent_memory.Base.{
  ℕ, zero, suc, ◌*◌, ◌<◌, ◌≡◌, refl, sym, ap, ◌∙◌, none, List, [], ◌∷◌, ◌++◌, map, arith, length,
  take, drop, length-take, length-drop, Text, ok,
}

module _ (wording : Wording) {S : Type 0} (b : Backend S) (waiting : S → List Text)
    (Good : S → Type 0) (law : Cooperates b waiting Good) where
  abbrev ids : List Session → List Text
  ids xs = map (λ (x : Session). x.id) xs

  summarise_all-clears :
      (xs : List Session) (rest : List Text) (t : Tally) (s : S)
      → Good s
      → waiting s ≡ ids xs ++ rest
      → Distinct (ids xs ++ rest)
      → Good (summarise_all wording b xs t s).1
        × (waiting (summarise_all wording b xs t s).1 ≡ rest)
        × ((summarise_all wording b xs t s).0.run_err ≡ t.run_err)
  unfolding summarise_all
  summarise_all-clears [] rest t s good queue distinct = (good, queue, refl)
  summarise_all-clears (x ∷ xs) rest t s good queue (fresh, distinct) =
      let round = observed wording b x t (b.session_observations x.id tier1_observations s) in
      let (goes_on, no_err, good', gone) = round-Fine wording b waiting Good law x t s good in
      let left : waiting round.2 ≡ ids xs ++ rest =
        gone ∙ ap (without x.id) queue ∙ without-front x.id (ids xs ++ rest) fresh in
      let (good'', queue', err') =
        summarise_all-clears xs rest round.1 round.2 good' left distinct in
      rw (law.not_cancelled s good, goes_on, summarise_all) (good'', queue', err' ∙ no_err)

  take-drop : (n : ℕ) (ws : List Text) → take n ws ++ drop n ws ≡ ws
  take-drop zero ws = refl
  take-drop (suc n) [] = refl
  take-drop (suc n) (w ∷ ws) = ap (λ vs. w ∷ vs) (take-drop n ws)

  Distinct-drop : (n : ℕ) (ws : List Text) → Distinct ws → Distinct (drop n ws)
  Distinct-drop zero ws h = h
  Distinct-drop (suc n) [] h = h
  Distinct-drop (suc n) (w ∷ ws) (fresh, h) = Distinct-drop n ws h

  -- What a batch leaves.
  abbrev Batched : S → Batch × S → Type 0
  Batched s done =
      Good done.1
      × (done.0.1 ≡ none)
      × (done.0.0 ≡ length (take tier1_batch (waiting s)))
      × (waiting done.1 ≡ drop tier1_batch (waiting s))

  length-ids : (xs : List Session) → length (ids xs) ≡ length xs
  length-ids [] = refl
  length-ids (x ∷ xs) = ap suc (length-ids xs)

  started-Batched :
      (xs : List Session) (s s1 s2 : S) (run_id : Text)
      → ids xs ≡ take tier1_batch (waiting s)
      → Distinct (waiting s)
      → Good s2
      → waiting s2 ≡ waiting s
      → Batched s (started wording b xs (ok run_id, s2))
  unfolding started
  started-Batched xs s s1 s2 run_id claim distinct good same =
      let rest = drop tier1_batch (waiting s) in
      let whole : ids xs ++ rest ≡ waiting s =
        ap (λ front. front ++ rest) claim ∙ take-drop tier1_batch (waiting s) in
      let (good3, queue, fine) =
        summarise_all-clears xs rest no_tally s2 good (same ∙ sym whole) (rw whole distinct) in
      let worked = summarise_all wording b xs no_tally s2 in
      let (s4, run, good4, same4) = law.finishes run_id (closing xs worked.0) worked.1 good3 in
      rw run (good4, fine, sym (length-ids xs) ∙ ap length claim, same4 ∙ queue)

  tier1_once-Batched : (s : S) → Good s → Distinct (waiting s) → Batched s (tier1_once wording b s)
  unfolding tier1_once claimed
  tier1_once-Batched s good distinct =
      let (xs, s1, run, claim, good1, same1) = law.claims s good in
      rw run (batch xs s1 claim good1 same1)
    where
      batch :
          (xs : List Session) (s1 : S)
          → ids xs ≡ take tier1_batch (waiting s)
          → Good s1
          → waiting s1 ≡ waiting s
          → Batched s (claimed wording b (ok xs, s1))
      batch [] s1 claim good1 same1 = (
        good1,
        refl,
        ap length claim,
        same1
            ∙ sym (take-drop tier1_batch (waiting s))
            ∙ ap (λ front. front ++ drop tier1_batch (waiting s)) (sym claim),
      )
      batch (x ∷ xs) s1 claim good1 same1 =
          let (run_id, s2, run, good2, same2) = law.starts s1 good1 in
          rw run (started-Batched (x ∷ xs) s s1 s2 run_id claim distinct good2 (same2 ∙ same1))

  abbrev Proper : S → Type 0
  Proper s = Good s × Distinct (waiting s)

  tier1-WorksOff :
      WorksOff b.is_cancelled tier1_batch (tier1_once wording b) (λ s. length (waiting s)) Proper
  tier1-WorksOff = record {
    goes_on = λ s proper. law.not_cancelled s proper.0;
    stays_good = λ s proper.
        let (good, _, _, left) = tier1_once-Batched s proper.0 proper.1 in
        (good, rw left (Distinct-drop tier1_batch (waiting s) proper.1));
    no_error = λ s proper. (tier1_once-Batched s proper.0 proper.1).1;
    taken = λ s proper.
        let (_, _, count, left) = tier1_once-Batched s proper.0 proper.1 in
        rw (count, left)
          (omega (arith, length-take tier1_batch (waiting s), length-drop tier1_batch (waiting s)));
    full = λ s proper.
        let (_, _, count, left) = tier1_once-Batched s proper.0 proper.1 in
        rw (count, left)
          (ground
            (arith, length-take tier1_batch (waiting s), length-drop tier1_batch (waiting s)));
  }

  -- Against a store that answers and a model that answers or has spent its tokens, a drain of fewer than five
  -- thousand waiting sessions ends without an error, and behind it no session waits for a summary.
  pub drain_tier1-clears :
      (s : S)
      → Good s
      → Distinct (waiting s)
      → length (waiting s) < max_drain_batches * tier1_batch
      → ((drain_tier1 wording b s).0 ≡ none) × (length (waiting (drain_tier1 wording b s).1) ≡ 0)
  unfolding drain_tier1 drain_loop
  drain_tier1-clears s good distinct few =
      drain_from-clears b.is_cancelled tier1_batch (tier1_once wording b)
        (λ s'. length (waiting s')) Proper tier1-WorksOff max_drain_batches 1 s (good, distinct)
        (omega arith) few
