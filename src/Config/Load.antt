-- ===== src/Config/Load.antt =====
-- internal/config/config.go: `Load` and `Parse`.
--
-- Reading the file, `yaml.Unmarshal`, `Decode`, the environment and the views of reflection on the
-- configuration are parameters.
use dk_agent_memory.Config.Model.{Config, defaults}
use dk_agent_memory.Config.Unknown.{
  Typ, Node, document, object, sequence, scalar, alias, no_nodes, nodes, UnknownKey,
  check_unknown_keys,
}
use dk_agent_memory.Config.Environment.{Fields, EnvError, apply_env}
use dk_agent_memory.Config.Validate.{KeyError, Floats, validate}
use dk_agent_memory.Config.Reported.{Occurs, Misses, keys_at, HasReport, check_unknown_keys-Misses}
use dk_agent_memory.Config.Startup.{Listens, LimitsFit, Runs, validate-Listens}
use dk_agent_memory.Base.{
  ℕ, ◌≡◌, refl, ap, inl, inr, Bool, true, false, Option, none, some, List, [], ◌∷◌, if◌then◌else◌,
  Option-cases, ℤ, Text, codes, Result, ◌>>=◌, ◌>>◌, ok_inj, >>=-eq-ok, then-eq-ok, ok, err,
}

pub data LoadError : Type 0 where
  unreadable : LoadError
  not_yaml : LoadError
  unknown_keys : List UnknownKey → LoadError
  undecodable : LoadError
  bad_variable : EnvError → LoadError
  bad_key : KeyError → LoadError
  no_file : LoadError → LoadError

pub data File : Type 0 where
  absent : File
  unreadable_file : File
  contents : Text → File

-- What `Parse` uses of other packages, and the constants of the defaults.
pub record Host (F : Type 0) : Type 0 where
  pub floats : Floats F
  pub ninety : F
  pub threshold : F
  pub split_host_port : Text → Option (Text × Text)
  pub parse_url : Text → Option (Text × Text)
  pub parse_bool : Text → Option Bool
  pub parse_float : Text → Option F
  pub parse_duration : Text → Option ℤ
  pub lookup_env : Text → Option Text
  pub unmarshal : Text → Option Node
  pub decode : Node → Config F → Option (Config F)
  pub config_type : Typ
  pub fields_of : Config F → Fields F
  pub of_fields : Fields F → Config F

-- `os.Getenv`
abbrev pub getenv : Option Text → Text
getenv none = []
getenv (some raw) = raw

abbrev pub or_error {ℓ} : {E A : Type ℓ} → E → Option A → Result E A
or_error e none = err e
or_error e (some a) = ok a

abbrev pub as_error {ℓ} : {E E' A : Type ℓ} → (E → E') → Result E A → Result E' A
as_error f (err e) = err (f e)
as_error f (ok a) = ok a

-- `len(doc.Content) > 0`
abbrev pub has_content : Node → Bool
has_content (document no_nodes) = false
has_content (document (nodes root rest)) = true
has_content (object line no_nodes) = false
has_content (object line (nodes key rest)) = true
has_content (sequence line) = false
has_content (scalar line value) = false
has_content (alias line value) = false

abbrev pub known_only : List UnknownKey → Result LoadError (Unit {0})
known_only [] = ok tt
known_only (k ∷ ks) = err (unknown_keys (k ∷ ks))

module _ {F : Type 0} (h : Host F) where
  abbrev pub validated : Config F → Result KeyError (Config F)
  validated =
      validate h.floats h.split_host_port h.parse_url (λ (name : Text). getenv (h.lookup_env name))
        h.parse_duration

  abbrev pub decoded_over : Node → Config F → Result LoadError (Config F)
  decoded_over doc c = if has_content doc then or_error undecodable (h.decode doc c) else ok c

  unfoldable pub parse_document : Node → Result LoadError (Config F)
  parse_document doc = do
    known_only (check_unknown_keys doc h.config_type [])
    c ← decoded_over doc (defaults h.ninety h.threshold)
    fs ← as_error bad_variable (
        apply_env h.parse_bool h.parse_float h.parse_duration h.lookup_env (h.fields_of c)
          (codes "DKM"))
    as_error bad_key (validated (h.of_fields fs))

  unfoldable pub parse_config : Text → Result LoadError (Config F)
  unfolding parse_document
  parse_config raw = or_error not_yaml (h.unmarshal raw) >>= λ (doc : Node). parse_document doc

  -- A missing file is an empty one.
  unfoldable pub load : File → Result LoadError (Config F)
  unfolding parse_config
  load (contents raw) = parse_config raw
  load unreadable_file = err unreadable
  load absent = as_error no_file (parse_config [])

known_only-eq-ok : (ks : List UnknownKey) {u : Unit {0}} → known_only ks ≡ ok u → ks ≡ []
known_only-eq-ok [] e = refl
known_only-eq-ok (k ∷ ks) e = cc

as_error-eq-ok :
    {E E' A : Type 0} (f : E → E') (r : Result E A) {a : A} → as_error f r ≡ ok a → r ≡ ok a
as_error-eq-ok f (err e) h = cc
as_error-eq-ok f (ok a) h = ap ok (ok_inj h)

-- The text that a configuration was loaded from.
abbrev pub text_of : File → Text
text_of (contents raw) = raw
text_of absent = []
text_of unreadable_file = []

-- What a server that starts can rely on.
pub record IsAccepted {F : Type 0} (h : Host F) (doc : Node) (end : Config F) : Type 0 where
  pub read : (ks : List Text) (l : ℕ) → Occurs doc ks l → ¬ Misses (keys_at h.config_type) ks
  pub listens : Listens (h.split_host_port end.server.bind)
  pub limits : LimitsFit end.search.default_limit end.search.candidate_limit
  pub runs :
      end.consolidation.enabled ≡ true
      → Runs end.consolidation.fact_schedule × Runs end.consolidation.lesson_schedule

module _ {F : Type 0} (h : Host F) where
  none_reported : (path : List Text) (l : ℕ) → ¬ HasReport [] path l []
  none_reported path l (r, m, names) = elim m [ ]

  parse_document-IsAccepted :
      (doc : Node) (end : Config F) → parse_document h doc ≡ ok end → IsAccepted h doc end
  unfolding parse_document
  parse_document-IsAccepted doc end e =
      let (known, e1) = then-eq-ok (known_only (check_unknown_keys doc h.config_type [])) _ e in
      let (c, d, e2) = >>=-eq-ok (decoded_over h doc (defaults h.ninety h.threshold)) _ e1 in
      let (fs, g, e3) =
        >>=-eq-ok
          (as_error bad_variable (
            apply_env h.parse_bool h.parse_float h.parse_duration h.lookup_env (h.fields_of c)
              (codes "DKM")))
          _ e2 in
      let none_left = known_only-eq-ok (check_unknown_keys doc h.config_type []) known in
      let start = h.of_fields fs in
      let (same, listens, limits, runs) =
        validate-Listens h.floats h.split_host_port h.parse_url
          (λ (name : Text). getenv (h.lookup_env name)) h.parse_duration start end
          (as_error-eq-ok bad_key _ e3) in
      record {
        read = λ ks l o miss.
            none_reported ks l
              (rw none_left at ((check_unknown_keys-Misses doc h.config_type).1 ks l o miss));
        listens = rw (ap (λ (c : Config F). c.server.bind) same) listens;
        limits =
            rw
              (
                ap (λ (c : Config F). c.search.default_limit) same,
                ap (λ (c : Config F). c.search.candidate_limit) same,
              )
              limits;
        runs = runs;
      }

  parse_config-IsAccepted :
      (raw : Text) (end : Config F)
      → parse_config h raw ≡ ok end
      → (doc : Node) × (h.unmarshal raw ≡ some doc) × IsAccepted h doc end
  unfolding parse_config
  parse_config-IsAccepted raw end e = elim (Option-cases (h.unmarshal raw)) [
    | inl none' ↦ absurd (cc (rw (none', parse_config) at e))
    | inr (doc, some') ↦
        (doc, some', parse_document-IsAccepted doc end (rw (some', parse_config) at e))
  ]

  -- A server starts only from a file (a missing one counting as empty) that is YAML and in which every
  -- key that stands in a struct names one of its fields; and its configuration then has an address
  -- with a port from 1 to 65535, a search limit from 1 to the number of candidates and, where
  -- consolidation is on, two compiled schedules. This holds after the overrides from the environment.
  pub load-IsAccepted :
      (file : File) (end : Config F)
      → load h file ≡ ok end
      → (doc : Node) × (h.unmarshal (text_of file) ≡ some doc) × IsAccepted h doc end
  unfolding load parse_config
  load-IsAccepted (contents raw) end e = parse_config-IsAccepted raw end e
  load-IsAccepted absent end e = parse_config-IsAccepted [] end (as_error-eq-ok no_file _ e)
  load-IsAccepted unreadable_file end e = cc
