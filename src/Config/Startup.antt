-- ===== src/Config/Startup.antt =====
-- internal/config/config.go: what a configuration that passes `Validate` has.
use dk_agent_memory.Cron.Schedule.{Schedule, parse}
use dk_agent_memory.Cron.Parsed.{IsWellFormed}
use dk_agent_memory.Cron.Fields.{parse-IsWellFormed}
use dk_agent_memory.Config.Model.{Server, Search, Consolidation, Config, minute_long, defaults}
use dk_agent_memory.Config.Validate.{
  Floats, below, int_lt, required, valid_value, bad_port, bad_host, check_bind, check_database,
  check_injection, check_security, check_retention, check_log, check_embedding, check_search,
  check_llm, compiled, check_consolidation, check_server, validate,
}
use dk_agent_memory.Base.{
  ℕ, ◌≤◌, ◌<◌, ◌≡◌, refl, ap, ◌⊎◌, inl, inr, true, false, ◌||◌, Option, none, some, arith,
  Bool-cases, Option-cases, ℤ, atoi, Text, codes, ok_inj, >>=-eq-ok, refuse_if-eq-ok, Result-cases,
  then-eq-ok, ok, pos, negsuc,
}

-- The defaults with the values that a file or the environment must give.
abbrev pub configured : {F : Type 0} → F → F → Text → Text → Text → Config F
configured ninety threshold bind public_url url =
    let d = defaults ninety threshold in
    record d {
      server = record (d.server) { bind = bind; public_url = public_url };
      database = record (d.database) { url = url };
    }

-- A five-field schedule or an interval.
abbrev pub Runs : Option Schedule → Type 0
Runs none = ⊥
Runs (some s) = (0 < s.every) ⊎ IsWellFormed s

compiled-Runs :
    (parse_duration : Text → Option ℤ) (key expr : Text) (s : Schedule)
    → compiled parse_duration key expr ≡ ok s
    → Runs (some s)
unfolding compiled
compiled-Runs parse_duration key expr s h = elim (Result-cases (parse parse_duration expr)) [
  | inl (t, e) ↦ parse-IsWellFormed parse_duration expr s (cc (rw (e, compiled) at h))
  | inr (f, e) ↦ absurd (cc (rw (e, compiled) at h))
]

-- A limit of at least 1, and candidates for all of it.
abbrev pub LimitsFit : ℤ → ℤ → Type 0
LimitsFit (pos l) (pos k) = (1 ≤ l) × (l ≤ k)
LimitsFit (pos l) (negsuc k) = ⊥
LimitsFit (negsuc l) k = ⊥

LimitsFit_lem : (l k : ℤ) → below l 1 ≡ false → int_lt k l ≡ false → LimitsFit l k
LimitsFit_lem (pos l) (pos k) h g = ground arith
LimitsFit_lem (pos l) (negsuc k) h g = cc
LimitsFit_lem (negsuc l) k h g = cc

module _ {F : Type 0} (floats : Floats F) where
  check_search-LimitsFit :
      (s : Search F) {u : Unit {0}}
      → check_search floats s ≡ ok u
      → LimitsFit s.default_limit s.candidate_limit
  unfolding check_search
  check_search-LimitsFit s e =
      let (a, e1) =
        then-eq-ok (valid_value (codes "search.default_limit") (below s.default_limit 1)) _ e in
      let (b, e2) = then-eq-ok (valid_value (codes "search.rrf_k") (below s.rrf_k 1)) _ e1 in
      let (c, e3) =
        then-eq-ok
          (valid_value (codes "search.candidate_limit") (int_lt s.candidate_limit s.default_limit))
          _ e2 in
      LimitsFit_lem s.default_limit s.candidate_limit (refuse_if-eq-ok _ _ a)
        (refuse_if-eq-ok _ _ c)

-- An address that can be listened on.
abbrev pub Listens : Option (Text × Text) → Type 0
Listens none = ⊥
Listens (some (host, port)) =
    ((p : ℕ) × (atoi port ≡ some (pos p)) × (1 ≤ p) × (p ≤ 65535)) × (bad_host host ≡ false)

bad_port_lem :
    (port : Text)
    → bad_port port ≡ false
    → (p : ℕ) × (atoi port ≡ some (pos p)) × (1 ≤ p) × (p ≤ 65535)
unfolding bad_port
bad_port_lem port h = elim (Option-cases (atoi port)) [
  | inl e ↦ absurd (cc (rw (e, bad_port) at h))
  | inr (pos p, e) ↦
      let g : (below (pos p) 1 || int_lt (pos 65535) (pos p)) ≡ false = rw (e, bad_port) at h in
      (p, e, ground arith, ground arith)
  | inr (negsuc p, e) ↦ absurd (cc (rw (e, bad_port) at h))
]

check_bind-Listens : (o : Option (Text × Text)) {u : Unit {0}} → check_bind o ≡ ok u → Listens o
check_bind-Listens none e = cc
check_bind-Listens (some (host, port)) e =
    let (a, e1) = then-eq-ok (valid_value (codes "server.bind") (bad_port port)) _ e in
    (bad_port_lem port (refuse_if-eq-ok _ _ a), refuse_if-eq-ok _ _ e1)

enabled-Runs :
    (parse_duration : Text → Option ℤ) (c d : Consolidation)
    → check_consolidation parse_duration c ≡ ok d
    → c.enabled ≡ true
    → Runs d.fact_schedule × Runs d.lesson_schedule
unfolding check_consolidation
enabled-Runs parse_duration c d e on =
    let e0 = rw (on, check_consolidation) at e in
    let (a, e1) = then-eq-ok (check_llm c.llm) _ e0 in
    let (b, e2) =
      then-eq-ok
        (valid_value (codes "consolidation.session_summary_interval")
          (below c.session_summary_interval minute_long))
        _ e1 in
    let (fact, f, e3) =
      >>=-eq-ok
        (compiled parse_duration (codes "consolidation.fact_extraction_cron")
          c.fact_extraction_cron)
        _ e2 in
    let (lesson, l, e4) =
      >>=-eq-ok
        (compiled parse_duration (codes "consolidation.lesson_synthesis_cron")
          c.lesson_synthesis_cron)
        _ e3 in
    rw (← ok_inj e4) (
      compiled-Runs parse_duration _ c.fact_extraction_cron fact f,
      compiled-Runs parse_duration _ c.lesson_synthesis_cron lesson l,
    )

check_consolidation-Runs :
    (parse_duration : Text → Option ℤ) (c d : Consolidation)
    → check_consolidation parse_duration c ≡ ok d
    → d.enabled ≡ true
    → Runs d.fact_schedule × Runs d.lesson_schedule
unfolding check_consolidation
check_consolidation-Runs parse_duration c d e on = elim (Bool-cases c.enabled) [
  | inl was ↦ enabled-Runs parse_duration c d e was
  | inr off ↦
      let same : (record c { enabled = false }) ≡ d = ok_inj (rw (off, check_consolidation) at e) in
      absurd (cc (ap (λ (x : Consolidation). x.enabled) same))
]

module _ {F : Type 0} (floats : Floats F) (split_host_port parse_url : Text → Option (Text × Text))
    (getenv : Text → Text) (parse_duration : Text → Option ℤ) where
  check_server-Listens :
      (s : Server) {u : Unit {0}}
      → check_server floats split_host_port parse_url getenv parse_duration s ≡ ok u
      → Listens (split_host_port s.bind)
  unfolding check_server
  check_server-Listens s e =
      let (a, e1) = then-eq-ok (check_bind (split_host_port s.bind)) _ e in
      check_bind-Listens (split_host_port s.bind) a

  -- A configuration that passes `Validate` is returned as it was but for the compiled schedules:
  -- its address has a port from 1 to 65535, the limit of a search is at least 1 and within the
  -- candidates, and where consolidation is on, both schedules are compiled, each to an interval or
  -- to five well-formed fields.
  pub validate-Listens :
      (c end : Config F)
      → validate floats split_host_port parse_url getenv parse_duration c ≡ ok end
      → (end ≡ record c { consolidation = end.consolidation })
        × Listens (split_host_port c.server.bind)
        × LimitsFit c.search.default_limit c.search.candidate_limit
        × (end.consolidation.enabled ≡ true
            → Runs end.consolidation.fact_schedule × Runs end.consolidation.lesson_schedule)
  unfolding validate
  validate-Listens c end e =
      let (_, e1) = then-eq-ok (required (codes "server.bind") c.server.bind) _ e in
      let (_, e2) = then-eq-ok (required (codes "server.public_url") c.server.public_url) _ e1 in
      let (_, e3) = then-eq-ok (required (codes "database.url") c.database.url) _ e2 in
      let (listens, e4) =
        then-eq-ok (check_server floats split_host_port parse_url getenv parse_duration c.server) _
          e3 in
      let (_, e5) = then-eq-ok (check_database c.database) _ e4 in
      let (_, e6) = then-eq-ok (check_embedding getenv c.embedding) _ e5 in
      let (search, e7) = then-eq-ok (check_search floats c.search) _ e6 in
      let (d, runs, e8) = >>=-eq-ok (check_consolidation parse_duration c.consolidation) _ e7 in
      let (_, e9) = then-eq-ok (check_injection c.injection) _ e8 in
      let (_, e10) = then-eq-ok (check_security c.security) _ e9 in
      let (_, e11) = then-eq-ok (check_retention c.retention) _ e10 in
      let (_, e12) = then-eq-ok (check_log c.log) _ e11 in
      let same = ok_inj e12 in
      rw (← same) (
        refl,
        check_server-Listens c.server listens,
        check_search-LimitsFit floats c.search search,
        check_consolidation-Runs parse_duration c.consolidation d runs,
      )
