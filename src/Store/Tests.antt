-- ===== src/Store/Tests.antt =====
-- The theorems on the memories at a concrete table.
use dk_agent_memory.Ulid
use dk_agent_memory.Store.Model.{
  Env, Identity, Memory, kind_fact, visibility_private, visibility_team, source_manual, valid_kind,
  valid_visibility, valid_source, content_hash, normalise, visible, owned, find,
}
use dk_agent_memory.Store.Create.{
  MemoryInput, or_default, validate, redact, new_row, conflicts, insert_row, create_memory,
  get_memory_unscoped, existing,
}
use dk_agent_memory.Store.Read.{ListFilter, list_memories, listed, order_by, insert_by, page}
use dk_agent_memory.Store.Write.{update_where, own_row, share}
use dk_agent_memory.Store.Integrity.{IsConsistent}
use dk_agent_memory.Store.Steps.{
  Reachable, create, start, next, Reachable-IsConsistent, Step-invisible,
}
use dk_agent_memory.Store.Tenancy.{Readable, list_memories-Readable}
use dk_agent_memory.Store.Idempotent.{create_memory-present, create_memory-repeat}
use dk_agent_memory.Base.{
  ℕ, ◌+◌, ◌≡◌, refl, true, false, none, [], ◌∷◌, ◌++◌, All, Member, Text, codes, text_eq, is_space,
  trim_left, trim_space, fields_from, fields, join, here, ok,
}

abbrev env : Env
env = record {
  Real = ℕ;
  default_strength = 50;
  reinforced = λ r. r + 1;
  sha256_hex = λ s. s;
  find_all = λ _ _. [];
  redaction_enabled = false;
  session_exists = λ _. true;
}

abbrev alice : Identity
alice = record {
  key_id = codes "k1";
  user_id = codes "alice";
  user_name = codes "Alice";
  team_id = codes "t1";
  is_admin = false;
}

abbrev bob : Identity
bob = record alice { key_id = codes "k2"; user_id = codes "bob"; user_name = codes "Bob" }

abbrev mallory : Identity
mallory = record alice { user_id = codes "mallory"; team_id = codes "t2" }

abbrev an_id : Text
an_id = codes "01ARZ3NDEKTSV4RRFFQ69G5FAV"

abbrev input : MemoryInput
input = record {
  id = an_id;
  kind = [];
  title = codes "Use pgx";
  body = codes "instead of lib/pq";
  project = codes "p";
  files = [];
  visibility = [];
  source = [];
  session_id = none;
  embedding = none;
}

abbrev checked : MemoryInput
checked = record input { kind = kind_fact; visibility = visibility_private; source = source_manual }

abbrev row : Memory ℕ
row = record {
  id = an_id;
  team_id = codes "t1";
  user_id = codes "alice";
  project = codes "p";
  kind = kind_fact;
  title = codes "Use pgx";
  body = codes "instead of lib/pq";
  files = [];
  visibility = visibility_private;
  strength = 50;
  hits = 0;
  source = source_manual;
  session_id = none;
  redacted = false;
  redactions = [];
  superseded_by = none;
  deleted_at = none;
  created_at = 7;
  updated_at = 7;
  last_used_at = none;
  content_hash = codes "use pgx" ++ (0 ∷ codes "instead of lib/pq");
  embedding = none;
}

input-valid : validate input ≡ ok checked
unfolding validate valid_kind valid_visibility text_eq trim_space trim_left is_space Ulid.validate
    Ulid.check_chars Ulid.decoding
input-valid = refl

row-new : new_row env an_id 7 alice checked ≡ row
unfolding new_row redact content_hash normalise fields fields_from is_space join
row-new = refl

row-created : create_memory env an_id 7 alice input [] ≡ ok (row, true, row ∷ [])
unfolding create_memory insert_row conflicts valid_kind valid_visibility valid_source text_eq
row-created = rw (input-valid, row-new) refl

-- Alice shares the row, and Bob sees it.
abbrev shared_row : Memory ℕ
shared_row = record row { visibility = visibility_team; updated_at = 9 }

row-shared : share 9 alice an_id (row ∷ []) ≡ ok (shared_row, shared_row ∷ [])
unfolding share own_row owned find update_where text_eq
row-shared = refl

abbrev one_row : Reachable env (row ∷ [])
one_row = next alice start (create an_id 7 input row true row-created)

Reachable-IsConsistent_example : IsConsistent (row ∷ [])
Reachable-IsConsistent_example = Reachable-IsConsistent env one_row

mallory-blind : visible mallory row ≡ false
unfolding visible text_eq
mallory-blind = refl

source-valid : valid_source (or_default input.source source_manual) ≡ true
unfolding valid_source text_eq
source-valid = refl

consistent : IsConsistent (row ∷ [])
consistent = (tt, tt)

-- Mallory, of another team, is given Alice's private row.
create_memory-present_example :
    create_memory env an_id 8 mallory input (row ∷ []) ≡ ok (row, false, row ∷ [])
create_memory-present_example =
    create_memory-present env an_id 8 mallory input checked (row ∷ []) row consistent here refl refl
      input-valid source-valid

create_memory-repeat_example :
    create_memory env an_id 8 alice input (row ∷ []) ≡ ok (row, false, row ∷ [])
create_memory-repeat_example =
    create_memory-repeat env an_id an_id 7 8 alice input [] (row ∷ []) row tt refl row-created

mallory-creates : create_memory env an_id 8 mallory input (row ∷ []) ≡ ok (row, false, row ∷ [])
unfolding create_memory insert_row conflicts new_row redact existing get_memory_unscoped find
    valid_kind valid_visibility valid_source text_eq
mallory-creates = rw input-valid refl

Step-invisible_example : Member row (row ∷ [])
Step-invisible_example =
    Step-invisible env mallory row (create an_id 8 input row false mallory-creates) mallory-blind
      here

abbrev everything : ListFilter
everything = record {
  project = [];
  kinds = [];
  include_superseded = true;
  mine_only = false;
  limit = 0;
  cursor = [];
}

bob-lists : list_memories bob everything (shared_row ∷ []) ≡ ok (shared_row ∷ [], [])
unfolding list_memories listed order_by insert_by page visible text_eq
bob-lists = refl

list_memories-Readable_example : All (Readable bob) (shared_row ∷ [])
list_memories-Readable_example =
    list_memories-Readable bob everything (shared_row ∷ []) (shared_row ∷ []) [] bob-lists
