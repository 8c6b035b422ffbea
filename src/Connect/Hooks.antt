-- ===== src/Connect/Hooks.antt =====
-- internal/connect/writers.go: the hooks of Claude Code, written and removed.
use dk_agent_memory.Connect.Json.{
  Json, number, string, array, object, Items, no_items, item, Members, no_members, member,
  member_of, with_member, without_member, as_object, as_array, as_string, in_child,
}
use dk_agent_memory.Base.{
  ℕ, Bool, false, ◌||◌, Option, none, some, List, [], ◌∷◌, ◌++◌, ◌==◌, if◌then◌else◌, any, Text,
  codes, contains_text,
}

pub record HookEvent : Type 0 where
  pub event : Text
  pub command : Text

abbrev pub hook_events : List HookEvent
hook_events =
    record { event = codes "SessionStart"; command = codes "session-start" }
    ∷ record { event = codes "UserPromptSubmit"; command = codes "prompt" }
    ∷ record { event = codes "PostToolUse"; command = codes "tool" }
    ∷ record { event = codes "SessionEnd"; command = codes "session-end" }
    ∷ []

abbrev pub is_command : Option Text → Bool
is_command none = false
is_command (some cmd) = contains_text cmd (codes "dkm hook")

-- One of the hooks of an entry.
abbrev pub runs_dkm : Option Members → Bool
runs_dkm none = false
runs_dkm (some hm) = is_command (as_string (member_of (codes "command") hm))

unfoldable pub any_runs_dkm : Items → Bool
any_runs_dkm no_items = false
any_runs_dkm (item h hs) = runs_dkm (as_object (some h)) || any_runs_dkm hs

abbrev pub list_runs_dkm : Option Items → Bool
list_runs_dkm none = false
list_runs_dkm (some hs) = any_runs_dkm hs

abbrev pub members_mention_dkm : Option Members → Bool
members_mention_dkm none = false
members_mention_dkm (some m) = list_runs_dkm (as_array (member_of (codes "hooks") m))

unfoldable pub entry_mentions_dkm : Json → Bool
unfolding any_runs_dkm member_of
entry_mentions_dkm entry = members_mention_dkm (as_object (some entry))

unfoldable pub kept_entries : Items → Items
unfolding entry_mentions_dkm
kept_entries no_items = no_items
kept_entries (item e es) =
    let rest = kept_entries es in if entry_mentions_dkm e then rest else item e rest

unfoldable pub with_item : Items → Json → Items
with_item no_items e = item e no_items
with_item (item x xs) e = item x (with_item xs e)

-- `ContainsAny(binary, " \t")`
unfoldable pub quote_if_needed : Text → Text
quote_if_needed binary =
    if any (λ (c : ℕ). c == b' ' || c == 9) binary then b'"' ∷ (binary ++ b'"' ∷ []) else binary

unfoldable pub hook_command : Text → HookEvent → Text
unfolding quote_if_needed
hook_command binary h = quote_if_needed binary ++ (codes " hook " ++ h.command)

unfoldable pub hook_entry : Text → HookEvent → Json
unfolding hook_command
hook_entry binary h = object (
    member (codes "matcher") (string []) (
      member (codes "hooks")
        (array (
          item
            (object (
              member (codes "type") (string (codes "command")) (
                member (codes "command") (string (hook_command binary h))
                  (member (codes "timeout") (number (codes "2")) no_members))))
            no_items))
        no_members))

abbrev pub or_no_items : Option Items → Items
or_no_items none = no_items
or_no_items (some es) = es

-- `hooks[event].([]any)`, none being an empty list.
unfoldable pub entries_of : Text → Members → Items
unfolding member_of
entries_of event hooks = or_no_items (as_array (member_of event hooks))

-- The loop over the events.
unfoldable pub set_hooks : Text → List HookEvent → Members → Members
unfolding kept_entries with_item hook_entry entries_of with_member
set_hooks binary [] hooks = hooks
set_hooks binary (h ∷ hs) hooks = set_hooks binary hs (
    with_member h.event
      (array (with_item (kept_entries (entries_of h.event hooks)) (hook_entry binary h))) hooks)

-- What `writeClaudeHooks` does to the document.
unfoldable pub add_hooks : Text → Members → Members
unfolding set_hooks in_child
add_hooks binary = in_child (codes "hooks") (set_hooks binary hook_events)

abbrev pub cleared : Text → Members → Items → Members
cleared event hooks no_items = without_member event hooks
cleared event hooks (item e es) = with_member event (array (item e es)) hooks

abbrev pub clear_list : Text → Members → Option Items → Members
clear_list event hooks none = hooks
clear_list event hooks (some es) = cleared event hooks (kept_entries es)

-- The loop over the events of the document, whose order does not matter: each round changes its own.
unfoldable pub clear_hooks : Members → Members → Members
unfolding kept_entries with_member without_member member_of
clear_hooks no_members hooks = hooks
clear_hooks (member event v ms) hooks =
    clear_hooks ms (clear_list event hooks (as_array (member_of event hooks)))

abbrev pub drop_if_empty : Members → Members → Members
drop_if_empty root no_members = without_member (codes "hooks") root
drop_if_empty root (member k v ms) = with_member (codes "hooks") (object (member k v ms)) root

abbrev pub remove_from : Members → Option Members → Members
remove_from root none = root
remove_from root (some hooks) = drop_if_empty root (clear_hooks hooks hooks)

-- What `Disconnect` does to the document with the hooks.
unfoldable pub remove_hooks : Members → Members
unfolding clear_hooks member_of with_member without_member
remove_hooks root = remove_from root (as_object (member_of (codes "hooks") root))
