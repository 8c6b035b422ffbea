-- ===== src/Config/Environment.antt =====
-- internal/config/config.go: `applyEnv`, over the tree of values that reflection shows, and
-- `envName`.
--
-- `strconv.ParseBool`, `strconv.ParseFloat`, `time.ParseDuration` and the environment are parameters.
use dk_agent_memory.Base.{
  ℕ, ◌-◌, Bool, not, ◌&&◌, ◌||◌, Option, none, some, List, [], ◌∷◌, ◌++◌, map, leb, ◌==◌,
  if◌then◌else◌, ℤ, atoi, Text, codes, text_eq, is_empty, Result, ◌>>=◌, is_space, trim_left,
  trim_space, split_on, Cut, cut_on, ok, err, uncut, halves,
}

mutual
  -- A field's value by its kind, with the floating-point numbers `F`.
  pub data Value (F : Type 0) : Type 0 where
    text : Text → Value F
    boolean : Bool → Value F
    int : ℤ → Value F
    float : F → Value F
    texts : List Text → Value F
    duration : ℤ → Value F
    unsupported : Value F
    section : Fields F → Value F

  -- The fields of a struct: whether it is exported, its `yaml` tag, its value.
  pub data Fields (F : Type 0) : Type 0 where
    no_fields : Fields F
    field : (exported : Bool) (tag : Text) → Value F → Fields F → Fields F

-- What cannot be read as a field's kind, or no kind of a variable.
pub data EnvError : Type 0 where
  not_a_value : (env raw : Text) → EnvError
  not_settable : (env : Text) → EnvError

abbrev pub upper_case : ℕ → ℕ
upper_case c = if leb b'a' c && leb c b'z' then c - 32 else c

abbrev pub name_before : Cut → Text → Text
name_before uncut tag = tag
name_before (halves name opts) tag = name

unfoldable pub yaml_name : Text → Text
unfolding cut_on
yaml_name tag = name_before (cut_on b',' tag) tag

abbrev pub env_of : Text → Text → Text
env_of prefix name = prefix ++ (b'_' ∷ map upper_case name)

-- `parts` trimmed, without the empty ones.
unfoldable pub trimmed_parts : List Text → List Text
unfolding trim_space trim_left is_space
trimmed_parts [] = []
trimmed_parts (p ∷ ps) =
    let rest = trimmed_parts ps in if is_empty (trim_space p) then rest else trim_space p ∷ rest

abbrev pub settable : Bool → Text → Bool
settable exported name = exported && not (text_eq name (codes "-") || is_empty name)

module _ {F : Type 0} where
  abbrev pub read_as :
      {A : Type 0} → Text → Text → (A → Value F) → Option A → Result EnvError (Value F)
  read_as env raw kind none = err (not_a_value env raw)
  read_as env raw kind (some a) = ok (kind a)

module _ {F : Type 0} (parse_bool : Text → Option Bool) (parse_float : Text → Option F)
    (parse_duration : Text → Option ℤ) where
  -- `setFromString`, with the variable's name that `applyEnv` adds to its error.
  unfoldable pub set_from_string : Text → Value F → Text → Result EnvError (Value F)
  unfolding trimmed_parts
  set_from_string env (text old) raw = ok (text raw)
  set_from_string env (boolean old) raw = read_as env raw boolean (parse_bool raw)
  set_from_string env (int old) raw = read_as env raw int (atoi raw)
  set_from_string env (float old) raw = read_as env raw float (parse_float raw)
  set_from_string env (texts old) raw = ok (texts (trimmed_parts (split_on b',' raw)))
  set_from_string env (duration old) raw = read_as env raw duration (parse_duration raw)
  set_from_string env unsupported raw = err (not_settable env)
  set_from_string env (section fs) raw = err (not_settable env)

  abbrev pub overridden : Text → Value F → Option Text → Result EnvError (Value F)
  overridden env v none = ok v
  overridden env v (some raw) = set_from_string env v raw

  module _ (lookup : Text → Option Text) where
    unfoldable mutual
      unfolding set_from_string

      -- One field: a struct is walked, anything else is overridden by its variable.
      pub apply_value : Value F → Text → Result EnvError (Value F)
      apply_value (section fs) env = apply_env fs env >>= λ (gs : Fields F). ok (section gs)
      apply_value (text old) env = overridden env (text old) (lookup env)
      apply_value (boolean old) env = overridden env (boolean old) (lookup env)
      apply_value (int old) env = overridden env (int old) (lookup env)
      apply_value (float old) env = overridden env (float old) (lookup env)
      apply_value (texts old) env = overridden env (texts old) (lookup env)
      apply_value (duration old) env = overridden env (duration old) (lookup env)
      apply_value unsupported env = overridden env unsupported (lookup env)

      pub apply_env : Fields F → Text → Result EnvError (Fields F)
      apply_env no_fields prefix = ok no_fields
      apply_env (field exported tag v fs) prefix = do
        w ←
            (if settable exported (yaml_name tag)
              then apply_value v (env_of prefix (yaml_name tag))
              else ok v)
        gs ← apply_env fs prefix
        ok (field exported tag w gs)

-- `ReplaceAll(dotted, ".", "_")`
abbrev pub underscored : Text → Text
underscored = map (λ (c : ℕ). if c == b'.' then b'_' else c)

-- The variable that the error for a missing key names.
abbrev pub env_name : Text → Text → Text
env_name prefix key = prefix ++ (b'_' ∷ map upper_case (underscored key))
