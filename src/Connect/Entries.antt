-- ===== src/Connect/Entries.antt =====
-- internal/connect/writers.go: the entries of an event behind `writeClaudeHooks`.
use dk_agent_memory.Connect.Json.{
  Json, array, object, Items, no_items, item, Members, no_members, member, member_of, with_member,
  as_object, as_array, or_no_members, in_child,
}
use dk_agent_memory.Connect.Hooks.{
  HookEvent, hook_events, entry_mentions_dkm, kept_entries, with_item, hook_entry, or_no_items,
  entries_of, set_hooks, add_hooks,
}
use mathlib.Core.Option.{some-injective}
use dk_agent_memory.Base.{
  ◌≡◌, refl, ap, ◌∙◌, inl, inr, true, false, Option, some, List, [], ◌∷◌, Bool-cases, All, Member,
  All-Member, Text, codes, text_eq, text_eq_iff, text_eq_refl, text_eq_comm, here, there,
}

pub member_of-with_member :
    (key : Text) (v : Json) (ms : Members) → member_of key (with_member key v ms) ≡ some v
unfolding member_of with_member
member_of-with_member key v no_members = rw (text_eq_refl key) refl
member_of-with_member key v (member k u ms) = elim (Bool-cases (text_eq key k)) [
  | inl e ↦ rw (e, e) refl
  | inr e ↦ rw (e, e) (member_of-with_member key v ms)
]

pub member_of-with_other :
    (key other : Text) (v : Json) (ms : Members)
    → text_eq key other ≡ false
    → member_of key (with_member other v ms) ≡ member_of key ms
unfolding member_of with_member
member_of-with_other key other v no_members ne = rw ne refl
member_of-with_other key other v (member k u ms) ne = elim (Bool-cases (text_eq other k)) [
  | inl e ↦ let same : other ≡ k = (text_eq_iff other k).0 e in rw (e, ← same, ne) refl
  | inr e ↦ elim (Bool-cases (text_eq key k)) [
    | inl f ↦ rw (e, f) refl
    | inr f ↦ rw (e, f) (member_of-with_other key other v ms ne)
  ]
]

-- To set what is there already changes nothing.
pub with_member_same :
    (key : Text) (v : Json) (ms : Members) → member_of key ms ≡ some v → with_member key v ms ≡ ms
unfolding member_of with_member
with_member_same key v no_members h = cc
with_member_same key v (member k u ms) h = elim (Bool-cases (text_eq key k)) [
  | inl e ↦ let same : u ≡ v = some-injective u v (rw e at h) in rw (e, same) refl
  | inr e ↦ rw (e, with_member_same key v ms (rw e at h)) refl
]

kept_entries-with_item_kept :
    (es : Items) (e : Json)
    → entry_mentions_dkm e ≡ true
    → kept_entries (with_item (kept_entries es) e) ≡ kept_entries es
unfolding kept_entries with_item
kept_entries-with_item_kept no_items e h = rw h refl
kept_entries-with_item_kept (item x xs) e h = elim (Bool-cases (entry_mentions_dkm x)) [
  | inl f ↦ rw f (kept_entries-with_item_kept xs e h)
  | inr f ↦ rw (f, f) (ap (item x) (kept_entries-with_item_kept xs e h))
]

kept_entries-with_item_unknown :
    (es : Items) (e : Json)
    → entry_mentions_dkm e ≡ false
    → kept_entries (with_item (kept_entries es) e) ≡ with_item (kept_entries es) e
unfolding kept_entries with_item
kept_entries-with_item_unknown no_items e h = rw h refl
kept_entries-with_item_unknown (item x xs) e h = elim (Bool-cases (entry_mentions_dkm x)) [
  | inl f ↦ rw f (kept_entries-with_item_unknown xs e h)
  | inr f ↦ rw (f, f) (ap (item x) (kept_entries-with_item_unknown xs e h))
]

-- An event that none of these is.
abbrev pub NoneIs : Text → List HookEvent → Type 0
NoneIs event = All (λ (h : HookEvent). text_eq event h.event ≡ false)

abbrev pub DistinctEvents : List HookEvent → Type 0
DistinctEvents [] = Unit
DistinctEvents (h ∷ hs) = NoneIs h.event hs × DistinctEvents hs

hook_events-DistinctEvents : DistinctEvents hook_events
unfolding text_eq
hook_events-DistinctEvents =
    ((refl, (refl, (refl, tt))), ((refl, (refl, tt)), ((refl, tt), (tt, tt))))

module _ (binary : Text) where
  -- The entries of an event behind the loop.
  abbrev pub refreshed_entries : Members → HookEvent → Items
  refreshed_entries hooks h =
      with_item (kept_entries (entries_of h.event hooks)) (hook_entry binary h)

  member_of-set_hooks_other :
      (event : Text) (hs : List HookEvent) (hooks : Members)
      → NoneIs event hs
      → member_of event (set_hooks binary hs hooks) ≡ member_of event hooks
  unfolding set_hooks
  member_of-set_hooks_other event [] hooks none' = refl
  member_of-set_hooks_other event (h ∷ hs) hooks (ne, none') =
      member_of-set_hooks_other event hs _ none'
      ∙ member_of-with_other event h.event (array (refreshed_entries hooks h)) hooks ne

  -- Each event's entries are the ones kept and dkm's.
  pub member_of-set_hooks :
      (hs : List HookEvent) (hooks : Members) (h : HookEvent)
      → DistinctEvents hs
      → Member h hs
      → member_of h.event (set_hooks binary hs hooks) ≡ some (array (refreshed_entries hooks h))
  unfolding set_hooks entries_of
  member_of-set_hooks (h ∷ hs) hooks _ (d, ds) here =
      member_of-set_hooks_other h.event hs _ d
      ∙ member_of-with_member h.event (array (refreshed_entries hooks h)) hooks
  member_of-set_hooks (g ∷ hs) hooks h (d, ds) (there m) =
      let ne : text_eq h.event g.event ≡ false =
        text_eq_comm h.event g.event
        ∙ All-Member (λ (x : HookEvent). text_eq g.event x.event ≡ false) d m in
      let same =
        member_of-with_other h.event g.event (array (refreshed_entries hooks g)) hooks ne in
      member_of-set_hooks hs (with_member g.event (array (refreshed_entries hooks g)) hooks) h ds m
      ∙ ap
          (λ (o : Option Json).
            some
              (array (with_item (kept_entries (or_no_items (as_array o))) (hook_entry binary h))))
          same
  member_of-set_hooks [] hooks h d m = elim m [ ]

  entries_of-set_hooks :
      (hooks : Members) (h : HookEvent)
      → Member h hook_events
      → entries_of h.event (set_hooks binary hook_events hooks) ≡ refreshed_entries hooks h
  unfolding entries_of
  entries_of-set_hooks hooks h m =
      rw (entries_of, member_of-set_hooks hook_events hooks h hook_events-DistinctEvents m) refl

  entries_again :
      (hooks : Members) (h : HookEvent)
      → Member h hook_events
      → entry_mentions_dkm (hook_entry binary h) ≡ false
      → refreshed_entries (set_hooks binary hook_events hooks) h
        ≡ with_item (refreshed_entries hooks h) (hook_entry binary h)
  entries_again hooks h m unknown =
      rw
        (
          entries_of-set_hooks hooks h m,
          kept_entries-with_item_unknown (entries_of h.event hooks) (hook_entry binary h) unknown,
        )
        refl

  set_hooks_settled :
      (hs : List HookEvent) (before hooks : Members)
      → ((h : HookEvent) → Member h hs → entry_mentions_dkm (hook_entry binary h) ≡ true)
      → ((h : HookEvent)
          → Member h hs
          → member_of h.event hooks ≡ some (array (refreshed_entries before h)))
      → set_hooks binary hs hooks ≡ hooks
  unfolding set_hooks
  set_hooks_settled [] before hooks known there' = refl
  set_hooks_settled (h ∷ hs) before hooks known settled =
      let found : entries_of h.event hooks ≡ refreshed_entries before h =
        rw (entries_of, settled h here) refl in
      let same : refreshed_entries hooks h ≡ refreshed_entries before h =
        rw
          (
            found,
            kept_entries-with_item_kept (entries_of h.event before) (hook_entry binary h)
                (known h here),
          )
          refl in
      let kept : with_member h.event (array (refreshed_entries hooks h)) hooks ≡ hooks =
        with_member_same h.event (array (refreshed_entries hooks h)) hooks
          (rw same (settled h here)) in
      rw kept
        (set_hooks_settled hs before hooks (λ g m. known g (there m)) (λ g m. settled g (there m)))

  -- The hooks of a document.
  abbrev pub hooks_of : Members → Members
  hooks_of root = or_no_members (as_object (member_of (codes "hooks") root))

  hooks_of-add_hooks :
      (root : Members)
      → hooks_of (add_hooks binary root) ≡ set_hooks binary hook_events (hooks_of root)
  unfolding add_hooks in_child
  hooks_of-add_hooks root =
      rw
        (member_of-with_member (codes "hooks")
          (object (set_hooks binary hook_events (hooks_of root))) root)
        refl

  -- Where dkm knows its entries again, to write the hooks a second time changes nothing.
  pub add_hooks_twice :
      (root : Members)
      → ((h : HookEvent) → Member h hook_events → entry_mentions_dkm (hook_entry binary h) ≡ true)
      → add_hooks binary (add_hooks binary root) ≡ add_hooks binary root
  unfolding add_hooks in_child
  add_hooks_twice root known =
      let hooks = set_hooks binary hook_events (hooks_of root) in
      let at = member_of-with_member (codes "hooks") (object hooks) root in
      let still : set_hooks binary hook_events hooks ≡ hooks =
        set_hooks_settled hook_events (hooks_of root) hooks known
          (λ h m. member_of-set_hooks hook_events (hooks_of root) h hook_events-DistinctEvents m) in
      rw (at, still)
        (with_member_same (codes "hooks") (object hooks)
          (with_member (codes "hooks") (object hooks) root) at)

  -- Where it does not, each event gets the entry once more.
  pub add_hooks_again :
      (root : Members) (h : HookEvent)
      → Member h hook_events
      → entry_mentions_dkm (hook_entry binary h) ≡ false
      → entries_of h.event (hooks_of (add_hooks binary (add_hooks binary root)))
        ≡ with_item (entries_of h.event (hooks_of (add_hooks binary root))) (hook_entry binary h)
  add_hooks_again root h m unknown =
      rw
        (
          hooks_of-add_hooks (add_hooks binary root),
          hooks_of-add_hooks root,
          entries_of-set_hooks (set_hooks binary hook_events (hooks_of root)) h m,
          entries_again (hooks_of root) h m unknown,
          entries_of-set_hooks (hooks_of root) h m,
        )
        refl
