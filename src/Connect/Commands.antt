-- ===== src/Connect/Commands.antt =====
-- internal/connect/writers.go: which commands `entryMentionsDKM` recognises.
use dk_agent_memory.Connect.Hooks.{
  HookEvent, hook_events, any_runs_dkm, entry_mentions_dkm, quote_if_needed, hook_command,
  hook_entry,
}
use dk_agent_memory.Connect.Json.{member_of}
use dk_agent_memory.Base.{
  ℕ, ◌≡◌, refl, ◌∙◌, true, false, ◌||◌, [], ◌∷◌, ◌++◌, append_assoc, arith, ◌==◌, ==_iff, any, All,
  Member, Text, codes, text_eq, has_prefix, contains_text, here, there,
}

has_prefix-append : (s r : Text) → has_prefix (s ++ r) s ≡ true
unfolding has_prefix
has_prefix-append [] [] = refl
has_prefix-append [] (c ∷ r) = refl
has_prefix-append (c ∷ s) r = ground (arith, has_prefix-append s r, ==_iff c c)

-- A text within another.
contains_text-within :
    (before : Text) (p : ℕ) (sub after : Text)
    → contains_text (before ++ ((p ∷ sub) ++ after)) (p ∷ sub) ≡ true
unfolding contains_text
contains_text-within [] p sub after = rw (has_prefix-append (p ∷ sub) after) refl
contains_text-within (c ∷ before) p sub after =
    ground (arith, contains_text-within before p sub after)

-- A byte that a text does not have.
abbrev pub Lacks : ℕ → Text → Type 0
Lacks sep = All (λ (p : ℕ). (sep == p) ≡ false)

-- Nothing that lacks a byte stands across that byte.
has_prefix-across :
    (s pat r : Text) (sep : ℕ) → Lacks sep pat → has_prefix (s ++ (sep ∷ r)) pat ≡ has_prefix s pat
unfolding has_prefix
has_prefix-across [] [] r sep h = refl
has_prefix-across [] (p ∷ pat) r sep (e, h) = rw e refl
has_prefix-across (c ∷ s) [] r sep h = refl
has_prefix-across (c ∷ s) (p ∷ pat) r sep (e, h) = rw (has_prefix-across s pat r sep h) refl

contains_text-across :
    (s : Text) (p : ℕ) (pat r : Text) (sep : ℕ)
    → Lacks sep (p ∷ pat)
    → contains_text s (p ∷ pat) ≡ false
    → contains_text r (p ∷ pat) ≡ false
    → contains_text (s ++ (sep ∷ r)) (p ∷ pat) ≡ false
unfolding contains_text
contains_text-across [] p pat r sep h out later =
    rw (has_prefix-across [] (p ∷ pat) r sep h, later) refl
contains_text-across (c ∷ s) p pat r sep h out later =
    let first : has_prefix (c ∷ s) (p ∷ pat) ≡ false = ground (arith, out) in
    let rest : contains_text s (p ∷ pat) ≡ false = ground (arith, out) in
    rw
      (
        has_prefix-across (c ∷ s) (p ∷ pat) r sep h,
        first,
        contains_text-across s p pat r sep h rest later,
      )
      refl

abbrev hook_mark : Text
hook_mark = codes "dkm hook"

entry-command :
    (binary : Text) (h : HookEvent)
    → entry_mentions_dkm (hook_entry binary h) ≡ contains_text (hook_command binary h) hook_mark
unfolding entry_mentions_dkm hook_entry any_runs_dkm member_of text_eq
entry-command binary h = ground arith

-- A command that is written without quotes, under the name dkm.
pub entry_known :
    (dir : Text) (h : HookEvent)
    → any (λ (c : ℕ). c == b' ' || c == 9) (dir ++ codes "dkm") ≡ false
    → entry_mentions_dkm (hook_entry (dir ++ codes "dkm") h) ≡ true
unfolding hook_command quote_if_needed
entry_known dir h plain =
    entry-command (dir ++ codes "dkm") h
    ∙ rw
        (
          hook_command,
          quote_if_needed,
          plain,
          append_assoc dir (codes "dkm") (codes " hook " ++ h.command),
        )
        (contains_text-within dir b'd' (codes "km hook") (b' ' ∷ h.command))

arguments_unmarked :
    (h : HookEvent)
    → Member h hook_events
    → contains_text (codes " hook " ++ h.command) hook_mark ≡ false
unfolding contains_text has_prefix
arguments_unmarked _ here = refl
arguments_unmarked _ (there here) = refl
arguments_unmarked _ (there (there here)) = refl
arguments_unmarked _ (there (there (there here))) = refl
arguments_unmarked h (there (there (there (there m)))) = elim m [ ]

exe_unmarked :
    (h : HookEvent)
    → Member h hook_events
    → contains_text (codes "exe" ++ (codes " hook " ++ h.command)) hook_mark ≡ false
unfolding contains_text has_prefix
exe_unmarked _ here = refl
exe_unmarked _ (there here) = refl
exe_unmarked _ (there (there here)) = refl
exe_unmarked _ (there (there (there here))) = refl
exe_unmarked h (there (there (there (there m)))) = elim m [ ]

nothing_in : contains_text [] hook_mark ≡ false
unfolding contains_text
nothing_in = refl

-- A path with a blank, which is written in quotes, or one that ends in .exe; and "dkm hook" is not in it.
pub data Unrecognised : Text → Type 0 where
  quoted :
      (binary : Text)
      → any (λ (c : ℕ). c == b' ' || c == 9) binary ≡ true
      → contains_text binary (codes "dkm hook") ≡ false
      → Unrecognised binary
  windows :
      (name : Text)
      → any (λ (c : ℕ). c == b' ' || c == 9) (name ++ codes ".exe") ≡ false
      → contains_text name (codes "dkm hook") ≡ false
      → Unrecognised (name ++ codes ".exe")

quote-Lacks : Lacks b'"' hook_mark
quote-Lacks = (refl, (refl, (refl, (refl, (refl, (refl, (refl, (refl, tt))))))))

dot-Lacks : Lacks b'.' hook_mark
dot-Lacks = (refl, (refl, (refl, (refl, (refl, (refl, (refl, (refl, tt))))))))

pub entry_unknown :
    (binary : Text) (h : HookEvent)
    → Unrecognised binary
    → Member h hook_events
    → entry_mentions_dkm (hook_entry binary h) ≡ false
unfolding hook_command quote_if_needed
entry_unknown _ h (quoted binary blank out) m =
    entry-command binary h
    ∙ rw
        (
          hook_command,
          quote_if_needed,
          blank,
          append_assoc binary (b'"' ∷ []) (codes " hook " ++ h.command),
        )
        (contains_text-across [] b'd' (codes "km hook")
          (binary ++ (b'"' ∷ (codes " hook " ++ h.command))) b'"' quote-Lacks nothing_in
          (contains_text-across binary b'd' (codes "km hook") (codes " hook " ++ h.command) b'"'
            quote-Lacks out (arguments_unmarked h m)))
entry_unknown _ h (windows name plain out) m =
    entry-command (name ++ codes ".exe") h
    ∙ rw
        (
          hook_command,
          quote_if_needed,
          plain,
          append_assoc name (codes ".exe") (codes " hook " ++ h.command),
        )
        (contains_text-across name b'd' (codes "km hook")
          (codes "exe" ++ (codes " hook " ++ h.command)) b'.' dot-Lacks out (exe_unmarked h m))
