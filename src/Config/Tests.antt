-- ===== src/Config/Tests.antt =====
-- A container that is configured by its environment, misspelt keys, and distances.
use dk_agent_memory.Config.Model.{Config, defaults}
use dk_agent_memory.Config.Validate.{Floats}
use dk_agent_memory.Config.Startup.{configured}
use dk_agent_memory.Config.Defaults.{validate-configured}
use dk_agent_memory.Config.Distance.{
  min3, first_row, fill_row, table_rows, levenshtein, nearest, suggest,
}
use dk_agent_memory.Config.Edits.{IsLeast}
use dk_agent_memory.Config.Table.{levenshtein-IsLeast}
use dk_agent_memory.Config.Unknown.{
  Typ, struct, plain, no_more, member, Node, document, object, scalar, no_nodes, nodes, put_field,
  yaml_fields, field_type, keys_of, UnknownKey, behind_pointers, check_unknown_keys,
}
use dk_agent_memory.Config.Reported.{
  Occurs, Misses, keys_at, IsMissed, HasReport, check_unknown_keys-Misses,
}
use dk_agent_memory.Config.Environment.{
  Value, text, boolean, int, float, texts, duration, unsupported, section, Fields, no_fields, field,
  yaml_name, set_from_string, overridden, apply_value, apply_env,
}
use dk_agent_memory.Config.Overrides.{leaf_at, apply_env-leaf_at}
use dk_agent_memory.Config.Load.{
  Host, absent, parse_document, getenv, parse_config, load, IsAccepted, load-IsAccepted,
}
use dk_agent_memory.Base.{
  ℕ, ◌≡◌, refl, true, false, Option, none, some, List, [], ◌∷◌, arith, ltb, leb, if◌then◌else◌,
  drop, Member, ℤ, digits_from, atoi, Text, codes, text_eq, text_lt, join, has_prefix, Cut, cut_on,
  contains_text, ok, uncut, halves,
}

-- Three edits apart.
distance : levenshtein (codes "kitten") (codes "sitting") ≡ 3
unfolding levenshtein table_rows first_row fill_row min3 text_eq
distance = refl

levenshtein-IsLeast_example : IsLeast (codes "dimensons") (codes "dimensions") 1
unfolding levenshtein table_rows first_row fill_row min3 text_eq
levenshtein-IsLeast_example = levenshtein-IsLeast (codes "dimensons") (codes "dimensions")

suggested :
    suggest (codes "bnd") (codes "bind" ∷ codes "public_url" ∷ []) (codes "server")
    ≡ codes "server.bind"
unfolding suggest nearest levenshtein table_rows first_row fill_row min3 text_eq
suggested = refl

not_offered : suggest (codes "colour") (codes "bind" ∷ []) [] ≡ []
unfolding suggest nearest levenshtein table_rows first_row fill_row min3 text_eq
not_offered = refl

abbrev embedding_type : Typ
embedding_type = struct (
    member true (codes "Model") (codes "model") false plain
      (member true (codes "Dimensions") (codes "dimensions") false plain no_more))

abbrev config_type : Typ
config_type =
    struct (member true (codes "Embedding") (codes "embedding") false embedding_type no_more)

abbrev misspelt : Node
misspelt = document (
    nodes
      (object 1 (
        nodes (scalar 1 (codes "embedding")) (
          nodes
            (object 2
              (nodes (scalar 2 (codes "dimensons")) (nodes (scalar 2 (codes "384")) no_nodes)))
            no_nodes)))
      no_nodes)

reports :
    check_unknown_keys misspelt config_type []
    ≡ record {
      path = codes "embedding.dimensons";
      line = 2;
      suggestion = codes "embedding.dimensions";
    }
      ∷ []
unfolding check_unknown_keys behind_pointers field_type keys_of put_field yaml_fields suggest
    nearest levenshtein table_rows first_row fill_row min3 text_eq text_lt cut_on contains_text
    has_prefix
reports = refl

check_unknown_keys-Misses_example :
    ((r : UnknownKey)
      → Member r (check_unknown_keys misspelt config_type [])
      → IsMissed (Occurs misspelt) (keys_at config_type) [] r)
    × ((ks : List Text) (l : ℕ)
        → Occurs misspelt ks l
        → Misses (keys_at config_type) ks
        → HasReport [] ks l (check_unknown_keys misspelt config_type []))
check_unknown_keys-Misses_example = check_unknown_keys-Misses misspelt config_type

abbrev floats : Floats ℕ
floats = record { at_most_zero = λ (n : ℕ). leb n 0; above_one = λ (n : ℕ). ltb 100 n }

abbrev parted : Cut → Option (Text × Text)
parted uncut = none
parted (halves host port) = some (host, port)

unfoldable split_host_port : Text → Option (Text × Text)
split_host_port s = parted (cut_on b':' s)

unfoldable parse_url : Text → Option (Text × Text)
parse_url s = if has_prefix s (codes "https://") then some (codes "https", drop 8 s) else none

abbrev no_duration : Text → Option ℤ
no_duration s = none

abbrev host_url : Text
host_url = codes "https://memories.example.com"

abbrev database_url : Text
database_url = codes "postgres://dkm@127.0.0.1/dkm"

abbrev container : Text → Option Text
container name =
    if text_eq name (codes "DKM_SERVER_PUBLIC_URL")
    then some host_url
    else if text_eq name (codes "DKM_DATABASE_URL")
    then some database_url
    else none

-- The two settings that the environment gives.
abbrev two_fields : Text → Text → Fields ℕ
two_fields public_url url =
    field true (codes "server")
      (section (field true (codes "public_url") (text public_url) no_fields))
      (field true (codes "database")
        (section (field true (codes "url,omitempty") (text url) no_fields)) no_fields)

abbrev text_or_empty : Option (Value ℕ) → Text
text_or_empty none = []
text_or_empty (some (text s)) = s
text_or_empty (some (boolean b)) = []
text_or_empty (some (int n)) = []
text_or_empty (some (float x)) = []
text_or_empty (some (texts ss)) = []
text_or_empty (some (duration d)) = []
text_or_empty (some unsupported) = []
text_or_empty (some (section fs)) = []

unfoldable of_two_fields : Fields ℕ → Config ℕ
of_two_fields fs =
    configured 90 92 (codes "127.0.0.1:8090")
      (text_or_empty (leaf_at fs (codes "server" ∷ codes "public_url" ∷ [])))
      (text_or_empty (leaf_at fs (codes "database" ∷ codes "url" ∷ [])))

apply_env-leaf_at_example :
    (x : Value ℕ) × (leaf_at
        (two_fields host_url database_url)
        (codes "server" ∷ codes "public_url" ∷ [])
      ≡ some x)
    × (overridden
          (λ (s : Text). none)
          (λ (s : Text). none)
          no_duration
          (codes "DKM_SERVER_PUBLIC_URL")
          (text [])
          (container (codes "DKM_SERVER_PUBLIC_URL"))
        ≡ ok x)
unfolding apply_value apply_env set_from_string yaml_name cut_on text_eq join
apply_env-leaf_at_example =
    apply_env-leaf_at (λ (s : Text). none) (λ (s : Text). none) no_duration container
      (two_fields [] []) (two_fields host_url database_url) (codes "DKM") (codes "server")
      (codes "public_url" ∷ []) (text []) (omega arith) (omega arith) refl refl

abbrev sample : Host ℕ
sample = record {
  floats = floats;
  ninety = 90;
  threshold = 92;
  split_host_port = split_host_port;
  parse_url = parse_url;
  parse_bool = λ (s : Text). none;
  parse_float = λ (s : Text). none;
  parse_duration = no_duration;
  lookup_env = container;
  unmarshal = λ (s : Text). some (document no_nodes);
  decode = λ (doc : Node) (c : Config ℕ). some c;
  config_type = config_type;
  fields_of = λ (c : Config ℕ). two_fields c.server.public_url c.database.url;
  of_fields = of_two_fields;
}

-- What the container starts with.
abbrev started : Config ℕ
unfolding split_host_port parse_url cut_on has_prefix text_eq atoi digits_from
started =
    let (fact, lesson, _) =
      validate-configured floats split_host_port parse_url (λ (s : Text). getenv (container s))
        no_duration 90 92 (codes "127.0.0.1:8090") host_url database_url (codes "127.0.0.1")
        (codes "8090") (codes "https") (codes "memories.example.com") 8090 refl refl refl
        (omega arith) (omega arith) refl refl refl refl refl refl refl refl refl refl in
    record (configured 90 92 (codes "127.0.0.1:8090") host_url database_url) {
      consolidation = record ((defaults {F = ℕ} 90 92).consolidation) {
        fact_schedule = some fact;
        lesson_schedule = some lesson;
      };
    }

starts : load sample absent ≡ ok started
unfolding load parse_config parse_document apply_value apply_env set_from_string yaml_name cut_on
    text_eq of_two_fields check_unknown_keys split_host_port parse_url has_prefix atoi digits_from
    started
starts =
    let (fact, lesson, e) =
      validate-configured floats split_host_port parse_url (λ (s : Text). getenv (container s))
        no_duration 90 92 (codes "127.0.0.1:8090") host_url database_url (codes "127.0.0.1")
        (codes "8090") (codes "https") (codes "memories.example.com") 8090 refl refl refl
        (omega arith) (omega arith) refl refl refl refl refl refl refl refl refl refl in
    rw e refl

load-IsAccepted_example :
    (doc : Node) × (◌≡◌ {A = Option Node} (some (document no_nodes)) (some doc))
    × IsAccepted sample doc started
load-IsAccepted_example = load-IsAccepted sample absent started starts
