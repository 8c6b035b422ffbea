-- ===== src/Client/Push.antt =====
-- internal/client/client.go: a push of the queue, by the replies of the server to its calls.
use dk_agent_memory.Client.{
  QueuedWrite, Json, Mirror, elem, read_queue, remaining, Reply, accepted, refused, offline, Pass,
  push_all, push,
}
use dk_agent_memory.Client.Queue.{ReadsBack, dequeue_lem}
use dk_agent_memory.Base.{
  ℕ, suc, ◌+◌, ◌≡◌, refl, sym, ap, ◌∙◌, ◌≢◌, ◌⊎◌, inl, inr, Bool, true, false, not, List, [], ◌∷◌,
  ◌++◌, map, append_assoc, append-nil, arith, if◌then◌else◌, Bool-cases, length, keep, all, All,
  Text, ok_inj, ok,
}

Reply-cases : (r : Reply) → (r ≡ accepted) ⊎ ((r ≡ refused) ⊎ (r ≡ offline))
Reply-cases accepted = inl refl
Reply-cases refused = inr (inl refl)
Reply-cases offline = inr (inr refl)

-- The identifiers of the writes that were accepted, and how many were refused.
abbrev pub accepted_ids : List (QueuedWrite × Reply) → List Text
accepted_ids [] = []
accepted_ids ((w, accepted) ∷ run) = w.id ∷ accepted_ids run
accepted_ids ((w, refused) ∷ run) = accepted_ids run
accepted_ids ((w, offline) ∷ run) = accepted_ids run

abbrev pub refusals : List (QueuedWrite × Reply) → ℕ
refusals [] = 0
refusals ((w, accepted) ∷ run) = refusals run
refusals ((w, refused) ∷ run) = suc (refusals run)
refusals ((w, offline) ∷ run) = refusals run

abbrev pub writes : List (QueuedWrite × Reply) → List QueuedWrite
writes run = map (λ (c : QueuedWrite × Reply). c.0) run

-- The server was reached.
abbrev pub Reached : QueuedWrite × Reply → Type 0
Reached c = c.1 ≢ offline

remaining-keep :
    (json : Json) (done : List Text) (ws : List QueuedWrite)
    → remaining json done ws ≡ keep (λ w. not (elem w.id done)) ws
unfolding remaining
remaining-keep json done [] = refl
remaining-keep json done (w ∷ ws) = elim (Bool-cases (elem w.id done)) [
  | inl e ↦ rw (e, remaining) (remaining-keep json done ws)
  | inr e ↦ rw (e, remaining) (ap (λ vs. w ∷ vs) (remaining-keep json done ws))
]

-- The queue behind a push: as it was if the pass was stopped; else the writes of which none with their
-- identifier was accepted, in their order.
abbrev pub left_over : Bool → List (QueuedWrite × Reply) → List QueuedWrite → List QueuedWrite
left_over stopped run ws = if stopped then ws else keep (λ w. not (elem w.id (accepted_ids run))) ws

module _ {S : Type 0} (post : QueuedWrite → S → Reply × S) where
  -- The calls that lead from one state of the server to another, each with the reply that the server gave
  -- in the state that the calls before had left.
  pub data Calls : S → List (QueuedWrite × Reply) → S → Type 0 where
    no_calls : {s : S} → Calls s [] s
    call :
        {s s' : S} {w : QueuedWrite} {r : Reply} {run : List (QueuedWrite × Reply)}
        → (post w s).0 ≡ r
        → Calls (post w s).1 run s'
        → Calls s ((w, r) ∷ run) s'

  -- How far the calls went: all the writes, each time with a reply of the server; or as far as the
  -- first write that did not reach it.
  pub data Covers (ws : List QueuedWrite) : List (QueuedWrite × Reply) → Bool → Type 0 where
    whole :
        {run : List (QueuedWrite × Reply)} → writes run ≡ ws → All Reached run → Covers ws run false
    cut_short :
        (run : List (QueuedWrite × Reply)) (w : QueuedWrite) (unsent : List QueuedWrite)
        → writes run ++ (w ∷ unsent) ≡ ws
        → All Reached run
        → Covers ws (run ++ ((w, offline) ∷ [])) true

  -- What a pass says, by the calls that it made.
  pub record Tells (ws : List QueuedWrite) (s : S) (p : Pass post)
      (run : List (QueuedWrite × Reply)) : Type 0 where
    pub calls : Calls s run p.server
    pub covers : Covers ws run p.stopped
    pub done_accepted : p.done ≡ accepted_ids run
    pub pushed_accepted : p.pushed ≡ length (accepted_ids run)
    pub failed_refused : p.failed ≡ refusals run

  Covers-cons :
      (w : QueuedWrite) (r : Reply) (ws : List QueuedWrite) (run : List (QueuedWrite × Reply))
      (stopped : Bool)
      → r ≢ offline
      → Covers ws run stopped
      → Covers (w ∷ ws) ((w, r) ∷ run) stopped
  Covers-cons w r ws run _ reached (whole same all) = whole (ap (λ vs. w ∷ vs) same) (reached, all)
  Covers-cons w r ws _ _ reached (cut_short run v unsent same all) =
      cut_short ((w, r) ∷ run) v unsent (ap (λ vs. w ∷ vs) same) (reached, all)

  -- The loop, behind the identifiers and counts that it has so far.
  record Adds (ws : List QueuedWrite) (done : List Text) (pushed failed : ℕ) (s : S)
      (run : List (QueuedWrite × Reply)) : Type 0 where
    calls : Calls s run (push_all post ws done pushed failed s).server
    covers : Covers ws run (push_all post ws done pushed failed s).stopped
    done_added : (push_all post ws done pushed failed s).done ≡ done ++ accepted_ids run
    pushed_added :
        (push_all post ws done pushed failed s).pushed ≡ pushed + length (accepted_ids run)
    failed_added : (push_all post ws done pushed failed s).failed ≡ failed + refusals run

  push_all-Adds :
      (ws : List QueuedWrite) (done : List Text) (pushed failed : ℕ) (s : S)
      → (run : List (QueuedWrite × Reply)) × Adds ws done pushed failed s run
  unfolding push_all
  push_all-Adds [] done pushed failed s = (
    [],
    record {
      calls = no_calls;
      covers = whole refl tt;
      done_added = sym (append-nil done);
      pushed_added = omega arith;
      failed_added = omega arith;
    },
  )
  push_all-Adds (w ∷ ws) done pushed failed s = elim (Reply-cases (post w s).0) [
    | inl a ↦
        let (run, h) = push_all-Adds ws (done ++ (w.id ∷ [])) (pushed + 1) failed (post w s).1 in
        (
          (w, accepted) ∷ run,
          record {
            calls = call a (rw (a, push_all) h.calls);
            covers = rw (a, push_all) (Covers-cons w accepted ws run _ (λ q. cc) h.covers);
            done_added =
                rw (a, push_all) (h.done_added ∙ append_assoc done (w.id ∷ []) (accepted_ids run));
            pushed_added = rw (a, push_all) (omega (arith, h.pushed_added));
            failed_added = rw (a, push_all) h.failed_added;
          },
        )
    | inr (inl r) ↦
        let (run, h) = push_all-Adds ws done pushed (failed + 1) (post w s).1 in
        (
          (w, refused) ∷ run,
          record {
            calls = call r (rw (r, push_all) h.calls);
            covers = rw (r, push_all) (Covers-cons w refused ws run _ (λ q. cc) h.covers);
            done_added = rw (r, push_all) h.done_added;
            pushed_added = rw (r, push_all) h.pushed_added;
            failed_added = rw (r, push_all) (omega (arith, h.failed_added));
          },
        )
    | inr (inr o) ↦ (
      (w, offline) ∷ [],
      record {
        calls = call o (rw (o, push_all) no_calls);
        covers = rw (o, push_all) (cut_short [] w ws refl tt);
        done_added = rw (o, push_all) (sym (append-nil done));
        pushed_added = rw (o, push_all) (omega arith);
        failed_added = rw (o, push_all) (omega arith);
      },
    )
  ]

  -- If the lines of the queued writes read back and a push succeeds, then there is a run of calls, each with the
  -- reply that the server gave in its turn, that covers the queue in order, up to the first write that did
  -- not reach the server. The pass is stopped if and only if there is such a write; it names the writes that
  -- the server accepted, and counts these and the refused ones. A pass that was stopped leaves the queue as it
  -- was, and one that was not leaves exactly the writes of which none with their identifier was accepted.
  pub push_lem :
      (json : Json) (m m' : Mirror) (s : S)
      → All (ReadsBack json) (read_queue json m)
      → (push post json m s).1 ≡ ok m'
      → (run : List (QueuedWrite × Reply)) × Tells (read_queue json m) s (push post json m s).0 run
        × (read_queue json m' ≡ left_over (push post json m s).0.stopped run (read_queue json m))
  unfolding push
  push_lem json m m' s laws e =
      let ws = read_queue json m in
      let p = push_all post ws [] 0 0 s in
      let (run, h) = push_all-Adds ws [] 0 0 s in
      let told : Tells ws s p run = record {
        calls = h.calls;
        covers = h.covers;
        done_accepted = h.done_added;
        pushed_accepted = omega (arith, h.pushed_added);
        failed_refused = omega (arith, h.failed_added);
      } in
      let kept : read_queue json m' ≡ left_over p.stopped run ws = elim (Bool-cases p.stopped) [
        | inl st ↦ rw st (ap (read_queue json) (sym (ok_inj (rw st at e))))
        | inr ran ↦ rw ran (
            dequeue_lem json p.done m m' laws (rw ran at e)
            ∙ remaining-keep json p.done ws
            ∙ ap (λ ids. keep (λ w. not (elem w.id ids)) ws) h.done_added)
      ] in
      (run, told, kept)
