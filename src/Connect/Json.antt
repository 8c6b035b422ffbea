-- ===== src/Connect/Json.antt =====
-- internal/connect/writers.go: `mergeJSON` and `childObject`, over JSON as `encoding/json` decodes it.
--
-- A `map[string]any` is a list of its keys and values. Decoding and encoding are parameters. A disk is
-- what each path holds; failures of the disk are left out.
use dk_agent_memory.Base.{
  Bool, true, false, Option, none, some, [], ◌∷◌, ◌++◌, if◌then◌else◌, Text, codes, text_eq,
  is_empty, Result, ◌>>=◌, trim_space, ok, err,
}

mutual
  pub data Json : Type 0 where
    null : Json
    boolean : Bool → Json
    number : Text → Json
    string : Text → Json
    array : Items → Json
    object : Members → Json

  pub data Items : Type 0 where
    no_items : Items
    item : Json → Items → Items

  pub data Members : Type 0 where
    no_members : Members
    member : (key : Text) → Json → Members → Members

-- `root[key]`
unfoldable pub member_of : Text → Members → Option Json
member_of key no_members = none
member_of key (member k v ms) = if text_eq key k then some v else member_of key ms

-- `root[key] = v`
unfoldable pub with_member : Text → Json → Members → Members
with_member key v no_members = member key v no_members
with_member key v (member k u ms) =
    let rest = member k u (with_member key v ms) in if text_eq key k then member k v ms else rest

-- `delete(root, key)`
unfoldable pub without_member : Text → Members → Members
without_member key no_members = no_members
without_member key (member k v ms) =
    let rest = without_member key ms in if text_eq key k then rest else member k v rest

-- `.(map[string]any)`
abbrev pub as_object : Option Json → Option Members
as_object (some (object ms)) = some ms
as_object (some null) = none
as_object (some (boolean b)) = none
as_object (some (number n)) = none
as_object (some (string s)) = none
as_object (some (array items)) = none
as_object none = none

-- `.([]any)`
abbrev pub as_array : Option Json → Option Items
as_array (some (array items)) = some items
as_array (some null) = none
as_array (some (boolean b)) = none
as_array (some (number n)) = none
as_array (some (string s)) = none
as_array (some (object ms)) = none
as_array none = none

-- `.(string)`
abbrev pub as_string : Option Json → Option Text
as_string (some (string s)) = some s
as_string (some null) = none
as_string (some (boolean b)) = none
as_string (some (number n)) = none
as_string (some (array items)) = none
as_string (some (object ms)) = none
as_string none = none

abbrev pub or_no_members : Option Members → Members
or_no_members none = no_members
or_no_members (some ms) = ms

-- A change of the object that `childObject` returns, which is part of the root.
unfoldable pub in_child : Text → (Members → Members) → Members → Members
unfolding member_of with_member
in_child key change root =
    with_member key (object (change (or_no_members (as_object (member_of key root))))) root

-- A change of `root[key].(map[string]any)`, if it is an object.
abbrev pub if_object : Text → Members → (Members → Members) → Option Members → Members
if_object key root change none = root
if_object key root change (some ms) = with_member key (object (change ms)) root

abbrev pub Disk : Type 0
Disk = Text → Option Text

abbrev pub write_file : Disk → Text → Text → Disk
write_file disk path s = λ (q : Text). if text_eq q path then some s else disk q

abbrev pub or_empty : Option Text → Text
or_empty none = []
or_empty (some s) = s

pub data ConnectError : Type 0 where
  not_json : (path : Text) → ConnectError
  nil_map_panic : ConnectError
  no_config_location : ConnectError

-- Whether the file was changed, and the path of the copy of the original, if one was made.
pub record Written : Type 0 where
  pub changed : Bool
  pub backup : Text
  pub disk : Disk

-- The file gets new contents, behind a copy of the old.
unfoldable pub replaced_file : Disk → Text → Text → Text → Written
replaced_file disk path original updated =
    if is_empty original
    then record { changed = true; backup = []; disk = write_file disk path updated }
    else record {
      changed = true;
      backup = path ++ codes ".bak";
      disk = write_file (write_file disk (path ++ codes ".bak") original) path updated;
    }

-- `unmarshal` is `json.Unmarshal` into a map: `some none` is the nil map that the document `null` leaves.
module _ (unmarshal : Text → Option (Option Members)) (marshal : Members → Text) where
  abbrev pub decoded_root : Text → Text → Result ConnectError (Option Members)
  decoded_root path original =
      if is_empty (trim_space original)
      then ok (some no_members)
      else elim (unmarshal original) [ none ↦ err (not_json path) | some root ↦ ok root ]

  abbrev pub write_back : Disk → Text → Text → Text → Written
  write_back disk path original rendered =
      if text_eq (trim_space original) (trim_space rendered)
      then record { changed = false; backup = []; disk = disk }
      else replaced_file disk path original rendered

  -- To assign to a nil map panics. A change that only deletes leaves it nil, and it is printed as `null`.
  abbrev pub mutated :
      Bool → (Members → Members) → Disk → Text → Text → Option Members → Result ConnectError Written
  mutated assigns mutate disk path original none =
      if assigns
      then err nil_map_panic
      else ok (write_back disk path original (codes "null" ++ 10 ∷ []))
  mutated assigns mutate disk path original (some root) =
      ok (write_back disk path original (marshal (mutate root) ++ 10 ∷ []))

  -- `assigns` tells whether `mutate` assigns to the document, whatever that holds.
  unfoldable pub merge_json : Text → Bool → (Members → Members) → Disk → Result ConnectError Written
  unfolding replaced_file
  merge_json path assigns mutate disk = do
    root ← decoded_root path (or_empty (disk path))
    mutated assigns mutate disk path (or_empty (disk path)) root
