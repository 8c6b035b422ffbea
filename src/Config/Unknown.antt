-- ===== src/Config/Unknown.antt =====
-- internal/config/strict.go: `checkUnknownKeys`, over a YAML tree and the types of the structs.
--
-- A `map[string]reflect.StructField` is a list in the order of its keys, as `sort.Strings` leaves them.
use dk_agent_memory.Config.Distance.{suggest, dotted}
use dk_agent_memory.Base.{
  ℕ, Bool, not, ◌&&◌, ◌||◌, Option, none, some, List, [], ◌∷◌, ◌++◌, map, if◌then◌else◌, Text,
  codes, text_eq, text_lt, is_empty, to_lower, fields, Cut, cut_on, contains_text, uncut, halves,
}

mutual
  -- The type of a field, as reflection shows it.
  pub data Typ : Type 0 where
    pointer : Typ → Typ
    mapping : Typ
    struct : Members → Typ
    plain : Typ

  -- The fields of a struct: whether it is exported, its name, its `yaml` tag, whether it is embedded,
  -- its type.
  pub data Members : Type 0 where
    no_more : Members
    member : (exported : Bool) (name tag : Text) (embedded : Bool) → Typ → Members → Members

mutual
  pub data Node : Type 0 where
    document : Nodes → Node
    object : (line : ℕ) → Nodes → Node
    sequence : (line : ℕ) → Node
    scalar : (line : ℕ) (value : Text) → Node
    alias : (line : ℕ) (value : Text) → Node

  pub data Nodes : Type 0 where
    no_nodes : Nodes
    nodes : Node → Nodes → Nodes

abbrev pub line_of : Node → ℕ
line_of (document children) = 0
line_of (object line children) = line
line_of (sequence line) = line
line_of (scalar line value) = line
line_of (alias line value) = line

-- `Value`, which a scalar has, and an alias: the name of its anchor.
abbrev pub value_of : Node → Text
value_of (document children) = []
value_of (object line children) = []
value_of (sequence line) = []
value_of (scalar line value) = value
value_of (alias line value) = value

-- `out[name] = f`
unfoldable pub put_field : Text → Typ → List (Text × Typ) → List (Text × Typ)
put_field name t [] = (name, t) ∷ []
put_field name t ((other, u) ∷ out) =
    let later = (other, u) ∷ put_field name t out in
    if text_eq name other
    then (name, t) ∷ out
    else if text_lt name other
    then (name, t) ∷ (other, u) ∷ out
    else later

unfoldable pub put_fields : List (Text × Typ) → List (Text × Typ) → List (Text × Typ)
unfolding put_field
put_fields [] out = out
put_fields ((name, t) ∷ more) out = put_fields more (put_field name t out)

abbrev pub tag_name : Cut → Text → Text
tag_name uncut tag = tag
tag_name (halves name opts) tag = name

abbrev pub tag_opts : Cut → Text
tag_opts uncut = []
tag_opts (halves name opts) = opts

unfoldable mutual
  unfolding put_field put_fields cut_on contains_text text_eq

  -- The keys of a type that is a struct behind any pointers.
  pub promoted : Typ → List (Text × Typ)
  promoted (pointer t) = promoted t
  promoted (struct ms) = yaml_fields ms []
  promoted mapping = []
  promoted plain = []

  -- One round of the loop for each field, `out` being what the rounds before it left.
  pub yaml_fields : Members → List (Text × Typ) → List (Text × Typ)
  yaml_fields no_more out = out
  yaml_fields (member exported field tag embedded t ms) out =
      let name = tag_name (cut_on b',' tag) tag in
      let opts = tag_opts (cut_on b',' tag) in
      yaml_fields ms (
        if not exported || text_eq name (codes "-")
        then out
        else if embedded && (is_empty name || contains_text opts (codes "inline"))
        then put_fields (promoted t) out
        else put_field (if is_empty name then map to_lower field else name) t out)

unfoldable pub field_type : Text → List (Text × Typ) → Option Typ
field_type key [] = none
field_type key ((name, t) ∷ fields) = if text_eq key name then some t else field_type key fields

unfoldable pub keys_of : List (Text × Typ) → List Text
keys_of [] = []
keys_of ((name, t) ∷ fields) = name ∷ keys_of fields

pub record UnknownKey : Type 0 where
  pub path : Text
  pub line : ℕ
  pub suggestion : Text

-- The type behind the pointers.
unfoldable pub behind_pointers : Typ → Typ
behind_pointers (pointer t) = behind_pointers t
behind_pointers mapping = mapping
behind_pointers (struct ms) = struct ms
behind_pointers plain = plain

-- The keys to check a mapping against, if its type has any.
abbrev pub struct_fields : Typ → Option (List (Text × Typ))
struct_fields (pointer t) = none
struct_fields mapping = none
struct_fields (struct ms) = some (yaml_fields ms [])
struct_fields plain = none

abbrev pub reported : Text → List Text → Text → ℕ → UnknownKey
reported key known path line = record {
  path = dotted path key;
  line = line;
  suggestion = suggest key known path;
}

-- A key that the struct has leads on to its value, `nested`; another is reported.
abbrev pub check_field :
    Node → List (Text × Typ) → Text → Option Typ → (Typ → Text → List UnknownKey) → List UnknownKey
check_field key known path none nested =
    reported (value_of key) (keys_of known) path (line_of key) ∷ []
check_field key known path (some t) nested = nested t (dotted path (value_of key))

unfoldable mutual
  unfolding behind_pointers field_type keys_of

  pub check_unknown_keys : Node → Typ → Text → List UnknownKey
  check_unknown_keys (document no_nodes) t path = []
  check_unknown_keys (document (nodes root rest)) t path = check_unknown_keys root t path
  check_unknown_keys (object line children) t path =
      check_pairs children (struct_fields (behind_pointers t)) path
  check_unknown_keys (sequence line) t path = []
  check_unknown_keys (scalar line value) t path = []
  check_unknown_keys (alias line value) t path = []

  -- The loop over the keys and their values.
  pub check_pairs : Nodes → Option (List (Text × Typ)) → Text → List UnknownKey
  check_pairs children none path = []
  check_pairs no_nodes (some known) path = []
  check_pairs (nodes key no_nodes) (some known) path = []
  check_pairs (nodes key (nodes value rest)) (some known) path =
      check_field key known path (field_type (value_of key) known) (check_unknown_keys value)
      ++ check_pairs rest (some known) path
