-- ===== src/Client/MergeTests.antt =====
-- A local copy of one memory, and changes that delete it, send it again and send another.
use dk_agent_memory.Store.Model.{Memory, kind_fact, visibility_team, source_manual}
use dk_agent_memory.Store.Sync.{Change}
use dk_agent_memory.Client.Cache.{
  merged, cached, apply_changes, apply_one, removed, replaced_or_added, touch, index_from,
  put_index,
}
use dk_agent_memory.Client.Merged.{settle_all, merged-settled}
use dk_agent_memory.Base.{ℕ, ◌≡◌, refl, true, false, none, List, [], ◌∷◌, Text, codes, text_eq}

abbrev memory : Text → Text → Memory ℕ
memory id title = record {
  id = id;
  team_id = codes "t1";
  user_id = codes "u1";
  project = codes "p";
  kind = kind_fact;
  title = title;
  body = codes "b";
  files = [];
  visibility = visibility_team;
  strength = 1;
  hits = 0;
  source = source_manual;
  session_id = none;
  redacted = false;
  redactions = [];
  superseded_by = none;
  deleted_at = none;
  created_at = 7;
  updated_at = 8;
  last_used_at = none;
  content_hash = [];
  embedding = none;
}

abbrev held : List (Memory ℕ)
held = memory (codes "1") (codes "old") ∷ []

abbrev sent : List (Change ℕ)
sent =
    (record { memory = memory (codes "1") (codes "old"); deleted = true })
    ∷ (record { memory = memory (codes "2") (codes "second"); deleted = false })
    ∷ (record { memory = memory (codes "1") (codes "new"); deleted = false })
    ∷ []

sent_again :
    merged sent held ≡ memory (codes "1") (codes "new") ∷ memory (codes "2") (codes "second") ∷ []
unfolding merged apply_changes apply_one removed replaced_or_added touch index_from put_index
    text_eq
sent_again = refl

merged-settled_example :
    cached (codes "1") (merged sent held) ≡ settle_all sent (codes "1") (cached (codes "1") held)
merged-settled_example =
    merged-settled sent held (codes "1") (refl, (refl, (refl, tt))) (refl, tt, tt) refl
