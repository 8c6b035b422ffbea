-- ===== src/Consolidate/Guard.antt =====
-- internal/consolidate/worker.go: the guard against overlapping runs of a job, and the passes that an
-- administrator starts with `RunNow`, which do not go through it.
--
-- A job may be started while others are under way. What holds the worker's lock is one step; the end of a
-- job, be it a return, an error or a panic, is the deferred function. A call of `RunNow` shows here as the
-- passes that it makes: each tier pass begins and ends, beside whatever else is under way.
use dk_agent_memory.Base.{
  ℕ, suc, ◌-◌, ◌≡◌, refl, sym, ap, ◌∙◌, inl, inr, Bool, true, false, List, [], ◌∷◌, arith,
  if◌then◌else◌, Bool-cases, Member, Text, codes, text_eq, text_eq_iff, text_eq_comm,
}

-- The map `running`; the runs that `guard` has let in; and the tier passes that calls of `RunNow` make.
-- The code records neither kind of run.
pub record Jobs : Type 0 where
  pub running : Text → Bool
  pub under_way : List Text
  pub on_demand : List Text

unfoldable pub set_running : Text → Bool → (Text → Bool) → Text → Bool
set_running name value running other = if text_eq name other then value else running other

abbrev pub idle : Jobs
idle = record { running = λ name. false; under_way = []; on_demand = [] }

-- The beginning of `guard`: the job is skipped, or entered.
unfoldable pub enter : Text → Jobs → Jobs
unfolding set_running
enter name j =
    if j.running name
    then j
    else record j { running = set_running name true j.running; under_way = name ∷ j.under_way }

-- One run of a job less.
unfoldable pub drop_one : Text → List Text → List Text
drop_one name [] = []
drop_one name (n ∷ ns) = let rest = drop_one name ns in if text_eq name n then ns else n ∷ rest

unfoldable pub leave : Text → Jobs → Jobs
unfolding set_running drop_one
leave name j = record j {
  running = set_running name false j.running;
  under_way = drop_one name j.under_way;
}

-- The names under which the tier passes are scheduled.
pub data IsTier : Text → Type 0 where
  tier1 : IsTier (codes "tier1")
  tier2 : IsTier (codes "tier2")
  tier3 : IsTier (codes "tier3")

-- `RunNow` calls the function of the tier, with no look at the map.
unfoldable pub begin_now : Text → Jobs → Jobs
begin_now name j = record j { on_demand = name ∷ j.on_demand }

unfoldable pub end_now : Text → Jobs → Jobs
unfolding drop_one
end_now name j = record j { on_demand = drop_one name j.on_demand }

-- A tick of a job, the end of a run that the guard let in, or the beginning or the end of a pass of `RunNow`.
pub data JobStep : Jobs → Jobs → Type 0 where
  ticks : {j : Jobs} (name : Text) → JobStep j (enter name j)
  ends : {j : Jobs} {name : Text} → Member name j.under_way → JobStep j (leave name j)
  begins_now : {j : Jobs} {name : Text} → IsTier name → JobStep j (begin_now name j)
  ends_now : {j : Jobs} {name : Text} → Member name j.on_demand → JobStep j (end_now name j)

pub data JobsReachable : Jobs → Type 0 where
  at_start : JobsReachable idle
  after : {j j' : Jobs} → JobsReachable j → JobStep j j' → JobsReachable j'

unfoldable pub runs_of : Text → List Text → ℕ
runs_of name [] = 0
runs_of name (n ∷ ns) = if text_eq name n then suc (runs_of name ns) else runs_of name ns

-- The map counts the runs of every job: one, or none.
abbrev Counted : Jobs → Type 0
Counted j = (name : Text) → runs_of name j.under_way ≡ (if j.running name then 1 else 0)

runs_of-drop_one :
    (name other : Text) (ns : List Text)
    → runs_of other (drop_one name ns)
      ≡ (if text_eq name other then runs_of other ns - 1 else runs_of other ns)
unfolding runs_of drop_one
runs_of-drop_one name other [] = ground arith
runs_of-drop_one name other (n ∷ ns) = elim (Bool-cases (text_eq name other)) [
  | inl same ↦
      let path : name ≡ other = (text_eq_iff name other).0 same in
      let alike : text_eq other n ≡ text_eq name n = ap (λ t. text_eq t n) (sym path) in
      elim (Bool-cases (text_eq name n)) [
        | inl first ↦ rw (same, alike, first) (ground arith)
        | inr later ↦
            let fewer = runs_of-drop_one name other ns in
            let fewer' : runs_of other (drop_one name ns) ≡ runs_of other ns - 1 =
              rw same at fewer in
            let other_later : text_eq other n ≡ false = alike ∙ later in
            rw (same, later, other_later, runs_of) fewer'
      ]
  | inr apart ↦ elim (Bool-cases (text_eq name n)) [
    | inl first ↦
        let path : name ≡ n = (text_eq_iff name n).0 first in
        let not_n : text_eq other n ≡ false =
          ap (text_eq other) (sym path) ∙ text_eq_comm other name ∙ apart in
        rw (apart, first, not_n) refl
    | inr later ↦
        let fewer = runs_of-drop_one name other ns in
        let same_runs : runs_of other (drop_one name ns) ≡ runs_of other ns = rw apart at fewer in
        elim (Bool-cases (text_eq other n)) [
          | inl here' ↦ rw (apart, later, here', runs_of) (ap suc same_runs)
          | inr there' ↦ rw (apart, later, there', runs_of) same_runs
        ]
  ]
]

enter-Counted : (name : Text) (j : Jobs) → Counted j → Counted (enter name j)
unfolding enter set_running runs_of
enter-Counted name j h other = elim (Bool-cases (j.running name)) [
  | inl e ↦ rw (e, enter) (h other)
  | inr e ↦ elim (Bool-cases (text_eq name other)) [
    | inl same ↦
        let path : name ≡ other = (text_eq_iff name other).0 same in
        let back : text_eq other name ≡ true = text_eq_comm other name ∙ same in
        let off : j.running other ≡ false = ap j.running (sym path) ∙ e in
        let none_yet : runs_of other j.under_way ≡ 0 = rw off at (h other) in
        rw (e, same, back, enter) (ap suc none_yet)
    | inr apart ↦
        let back : text_eq other name ≡ false = text_eq_comm other name ∙ apart in
        rw (e, apart, back, enter) (h other)
  ]
]

at_most_one : (b : Bool) → (if b then 1 else 0) - 1 ≡ 0
at_most_one true = omega arith
at_most_one false = omega arith

leave-Counted : (name : Text) (j : Jobs) → Counted j → Counted (leave name j)
unfolding leave set_running
leave-Counted name j h other =
    let dropped = runs_of-drop_one name other j.under_way in
    elim (Bool-cases (text_eq name other)) [
      | inl same ↦
          let one_less : runs_of other (drop_one name j.under_way) ≡ runs_of other j.under_way - 1 =
            rw same at dropped in
          rw same (one_less ∙ ap (λ (n : ℕ). n - 1) (h other) ∙ at_most_one (j.running other))
      | inr apart ↦
          let unchanged : runs_of other (drop_one name j.under_way) ≡ runs_of other j.under_way =
            rw apart at dropped in
          rw apart (unchanged ∙ h other)
    ]

-- However ticks, ends and passes on demand follow each other, the guard has let in one run of a job while its
-- entry in the map is set, and none while it is not: never a second run beside one that it let in, and never
-- an entry that stays set when its run has ended.
pub JobsReachable-single :
    {j : Jobs} (reached : JobsReachable j) (name : Text)
    → runs_of name j.under_way ≡ (if j.running name then 1 else 0)
unfolding runs_of begin_now end_now
JobsReachable-single at_start = λ name. refl
JobsReachable-single (after before (ticks {j} name)) =
    enter-Counted name j (JobsReachable-single before)
JobsReachable-single (after before (ends {j} {name} under)) =
    leave-Counted name j (JobsReachable-single before)
JobsReachable-single (after before (begins_now tier)) = JobsReachable-single before
JobsReachable-single (after before (ends_now running)) = JobsReachable-single before
