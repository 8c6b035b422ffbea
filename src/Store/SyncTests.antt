-- ===== src/Store/SyncTests.antt =====
-- The stream of changes at a table of two rows.
use dk_agent_memory.Store.Model.{
  Identity, Memory, kind_fact, visibility_private, source_manual, visible,
}
use dk_agent_memory.Store.Read.{order_by, insert_by}
use dk_agent_memory.Store.Sync.{Clock, Change, bar, since, after, changes}
use dk_agent_memory.Store.Pages.{Prints, HasUniqueIds, Between, changes-Between}
use dk_agent_memory.Base.{
  ℕ, ◌+◌, ◌-◌, ◌≡◌, refl, sym, ap, ◌↔◌, true, false, Option, none, some, List, [], ◌∷◌, map, arith,
  ◌==◌, length, Member, Text, codes, text_eq, index_byte, here, there, ok,
}

abbrev time_of : Text → Option ℕ
time_of [] = none
time_of (c ∷ s) = some (c - 200)

-- A time is printed as one character, which is no bar.
abbrev short_clock : Clock
short_clock = record { parse = time_of; format = λ t. (t + 200) ∷ [] }

bar_apart : (t : ℕ) → (t + 200 == bar) ≡ false
bar_apart t = ground arith

short_clock-Prints : Prints short_clock
unfolding index_byte
short_clock-Prints = record {
  reads = λ t. ap some (omega arith);
  bare = λ t. rw (bar_apart t) refl;
}

abbrev carol : Identity
carol = record {
  key_id = codes "k3";
  user_id = codes "carol";
  user_name = codes "Carol";
  team_id = codes "t1";
  is_admin = false;
}

abbrev note : Memory ℕ
note = record {
  id = codes "a";
  team_id = codes "t1";
  user_id = codes "carol";
  project = codes "p";
  kind = kind_fact;
  title = codes "t";
  body = codes "b";
  files = [];
  visibility = visibility_private;
  strength = 1;
  hits = 0;
  source = source_manual;
  session_id = none;
  redacted = false;
  redactions = [];
  superseded_by = none;
  deleted_at = some 8;
  created_at = 7;
  updated_at = 8;
  last_used_at = none;
  content_hash = [];
  embedding = none;
}

abbrev later_note : Memory ℕ
later_note = record note { id = codes "ab"; deleted_at = none; updated_at = 9 }

abbrev table : List (Memory ℕ)
table = later_note ∷ note ∷ []

-- The cursor at time 5, before the rows.
abbrev at_five : Text
at_five = 205 ∷ bar ∷ []

abbrev gone : Change ℕ
gone = record { memory = note; deleted = true }

five-since : since short_clock at_five ≡ ok (5, [])
unfolding since index_byte
five-since = refl

-- A page of one row.
note-sent : changes short_clock carol at_five 1 table ≡ ok (gone ∷ [], 208 ∷ bar ∷ note.id)
unfolding changes since index_byte visible text_eq after order_by insert_by
note-sent = refl

apart : note.id ≡ later_note.id → note ≡ later_note
apart e =
    let lengths : length note.id ≡ length later_note.id = ap length e in
    absurd (omega (arith, lengths))

table-HasUniqueIds : HasUniqueIds table
table-HasUniqueIds _ _ here here = λ e. refl
table-HasUniqueIds _ _ here (there here) = λ e. sym (apart (sym e))
table-HasUniqueIds _ _ (there here) here = apart
table-HasUniqueIds _ _ (there here) (there here) = λ e. refl
table-HasUniqueIds _ _ here (there (there h)) = elim h [ ]
table-HasUniqueIds _ _ (there (there h)) _ = elim h [ ]
table-HasUniqueIds _ _ (there here) (there (there h)) = elim h [ ]

changes-Between_example :
    (to : ℕ × Text) × (since short_clock (208 ∷ bar ∷ note.id) ≡ ok to)
    × (Member later_note (map (λ (c : Change ℕ). c.memory) (gone ∷ []))
        ↔ Between carol (5, []) to later_note)
changes-Between_example =
    changes-Between short_clock short_clock-Prints carol at_five 1 table (5, []) (gone ∷ [])
      (208 ∷ bar ∷ note.id) later_note table-HasUniqueIds five-since note-sent here
