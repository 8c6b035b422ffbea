-- ===== src/Consolidate/Decode.antt =====
-- internal/consolidate/llm.go: a list of items in a reply. `json.Unmarshal` is a parameter, and so is the
-- order in which a map is walked: the fields of an object come in that order.
use dk_agent_memory.Consolidate.Json.{extract_json}
use dk_agent_memory.Base.{
  Bool, Option, none, some, List, [], ◌∷◌, if◌then◌else◌, Text, codes, text_eq, is_empty, Result,
  trim_space, has_prefix, ok, err,
}

pub record Unmarshal (A : Type 0) : Type 0 where
  pub list : Text → Option (List A)
  pub object : Text → Option (List (Text × Text))
  pub item : Text → Option A
  pub is_zero : A → Bool

pub data DecodeError : Type 0 where
  no_json not_decoded neither_array_nor_object no_array : DecodeError

abbrev pub known_names : List Text
known_names =
    codes "facts"
    ∷ codes "lessons"
    ∷ codes "items"
    ∷ codes "results"
    ∷ codes "memories"
    ∷ codes "data"
    ∷ codes "output"
    ∷ codes "list"
    ∷ []

unfoldable pub field_of : Text → List (Text × Text) → Option Text
field_of name [] = none
field_of name ((key, v) ∷ rest) = if text_eq key name then some v else field_of name rest

unfoldable pub starts_array : Text → Bool
starts_array v = has_prefix (trim_space v) (codes "[")

module _ {A : Type 0} (json : Unmarshal A) where
  abbrev decoded : Option Text → Option (List A)
  decoded none = none
  decoded (some v) = json.list v

  abbrev or_else : Option (List A) → Option (List A) → Option (List A)
  or_else (some xs) later = some xs
  or_else none later = later

  unfoldable pub by_name : List (Text × Text) → List Text → Option (List A)
  unfolding field_of
  by_name obj [] = none
  by_name obj (name ∷ names) = or_else (decoded (field_of name obj)) (by_name obj names)

  unfoldable pub by_array : List (Text × Text) → Option (List A)
  unfolding starts_array
  by_array [] = none
  by_array ((key, v) ∷ rest) =
      let later = by_array rest in if starts_array v then or_else (json.list v) later else later

  -- An object that is itself an item, unless it sets no field of it.
  unfoldable pub single : Option A → Result DecodeError (List A)
  single none = err no_array
  single (some a) = if json.is_zero a then err no_array else ok (a ∷ [])

  unfoldable pub from_object : Text → Option (List (Text × Text)) → Result DecodeError (List A)
  unfolding by_name by_array single
  from_object text none = err neither_array_nor_object
  from_object text (some obj) = elim (or_else (by_name obj known_names) (by_array obj)) [
    | some xs ↦ ok xs
    | none ↦ single (json.item text)
  ]

  abbrev or_undecoded : Option (List A) → Result DecodeError (List A)
  or_undecoded none = err not_decoded
  or_undecoded (some xs) = ok xs

  unfoldable pub decode_list : Text → Result DecodeError (List A)
  unfolding extract_json from_object
  decode_list raw =
      let trimmed = trim_space (extract_json raw) in
      if is_empty trimmed
      then err no_json
      else if has_prefix trimmed (codes "[")
      then or_undecoded (json.list trimmed)
      else from_object trimmed (json.object trimmed)
