-- ===== src/Connect/Repeat.antt =====
-- internal/connect/writers.go: `writeClaudeHooks`, once and again.
use dk_agent_memory.Connect.Json.{
  Members, Disk, or_empty, ConnectError, Written, replaced_file, decoded_root, write_back,
  merge_json,
}
use dk_agent_memory.Connect.Hooks.{
  HookEvent, hook_events, with_item, hook_entry, entries_of, add_hooks,
}
use dk_agent_memory.Connect.Entries.{hooks_of, add_hooks_twice, add_hooks_again}
use dk_agent_memory.Connect.Commands.{Unrecognised, entry_known, entry_unknown}
use dk_agent_memory.Base.{
  ℕ, ◌≡◌, refl, sym, ◌∙◌, inl, inr, true, false, ◌||◌, Option, some, [], ◌∷◌, ◌++◌, ◌==◌,
  if◌then◌else◌, Bool-cases, any, Member, Text, codes, text_eq, text_eq_refl, is_empty, Result,
  ok_inj, trim_space, ok,
}

abbrev pub unchanged : Disk → Written
unchanged disk = record { changed = false; backup = []; disk = disk }

pub replaced_file-path :
    (disk : Disk) (path original updated : Text)
    → (replaced_file disk path original updated).disk path ≡ some updated
unfolding replaced_file
replaced_file-path disk path [] updated = rw (text_eq_refl path) refl
replaced_file-path disk path (c ∷ s) updated = rw (text_eq_refl path) refl

module _ (unmarshal : Text → Option (Option Members)) (marshal : Members → Text) where
  -- `writeClaudeHooks`; an agent without a path for hooks has none.
  unfoldable pub write_claude_hooks : Text → Text → Disk → Result ConnectError Written
  write_claude_hooks path binary disk =
      if is_empty path
      then ok (unchanged disk)
      else merge_json unmarshal marshal path true (add_hooks binary) disk

  -- What is written for a document.
  abbrev pub rendered : Members → Text
  rendered ms = marshal ms ++ 10 ∷ []

  -- The file that the changed document is written to is read back and found up to date.
  written_again :
      (path : Text) (mutate : Members → Members) (disk : Disk) (ms : Members)
      → disk path ≡ some (rendered ms)
      → mutate ms ≡ ms
      → is_empty (trim_space (rendered ms)) ≡ false
      → unmarshal (rendered ms) ≡ some (some ms)
      → merge_json unmarshal marshal path true mutate disk ≡ ok (unchanged disk)
  unfolding merge_json
  written_again path mutate disk ms held fixed full back =
      rw (held, full, back, fixed, text_eq_refl (trim_space (rendered ms))) refl

  -- A document that was read is written back, or was up to date.
  merge_json-read :
      (path : Text) (mutate : Members → Members) (disk : Disk) (root : Members)
      → decoded_root unmarshal marshal path (or_empty (disk path)) ≡ ok (some root)
      → merge_json unmarshal marshal path true mutate disk
        ≡ ok
            (write_back unmarshal marshal disk path (or_empty (disk path)) (rendered (mutate root)))
  unfolding merge_json
  merge_json-read path mutate disk root read = rw read refl

  merge_json-again :
      (path : Text) (mutate : Members → Members) (disk : Disk) (root : Members)
      → decoded_root unmarshal marshal path (or_empty (disk path)) ≡ ok (some root)
      → mutate (mutate root) ≡ mutate root
      → is_empty (trim_space (rendered (mutate root))) ≡ false
      → unmarshal (rendered (mutate root)) ≡ some (some (mutate root))
      → (w : Written) → merge_json unmarshal marshal path true mutate disk ≡ ok w
      → merge_json unmarshal marshal path true mutate w.disk ≡ ok (unchanged w.disk)
  merge_json-again path mutate disk root read fixed full back w run =
      let written = ok_inj (sym (merge_json-read path mutate disk root read) ∙ run) in
      elim (Bool-cases
        (text_eq (trim_space (or_empty (disk path))) (trim_space (rendered (mutate root))))) [
          | inl same ↦
              let kept : unchanged disk ≡ w = rw same at written in
              rw (← kept) (merge_json-read path mutate disk root read ∙ rw same refl)
          | inr differs ↦
              let stored : replaced_file disk path (or_empty (disk path)) (rendered (mutate root))
                  ≡ w =
                rw differs at written in
              rw (← stored) (
                written_again path mutate
                  (replaced_file disk path (or_empty (disk path)) (rendered (mutate root))).disk
                  (mutate root)
                  (replaced_file-path disk path (or_empty (disk path)) (rendered (mutate root)))
                  fixed full back)
        ]

  -- To write the hooks a second time changes nothing, and says so: where the program is named dkm and
  -- its path has no blank or tab, the file could be read, and what is written of the new document is
  -- not blank and is read back as that document.
  pub write_claude_hooks-repeat :
      (path dir : Text) (disk : Disk) (root : Members)
      → is_empty path ≡ false
      → any (λ (c : ℕ). c == b' ' || c == 9) (dir ++ codes "dkm") ≡ false
      → decoded_root unmarshal marshal path (or_empty (disk path)) ≡ ok (some root)
      → is_empty (trim_space (rendered (add_hooks (dir ++ codes "dkm") root))) ≡ false
      → unmarshal (rendered (add_hooks (dir ++ codes "dkm") root))
        ≡ some (some (add_hooks (dir ++ codes "dkm") root))
      → (w : Written) → write_claude_hooks path (dir ++ codes "dkm") disk ≡ ok w
      → write_claude_hooks path (dir ++ codes "dkm") w.disk ≡ ok (unchanged w.disk)
  unfolding write_claude_hooks
  write_claude_hooks-repeat path dir disk root named plain read full back w run =
      let binary = dir ++ codes "dkm" in
      rw (named, write_claude_hooks)
        (merge_json-again path (add_hooks binary) disk root read
          (add_hooks_twice binary root (λ h m. entry_known dir h plain)) full back w
          (rw (named, write_claude_hooks) at run))

-- Where the program's path has a blank or a tab, or ends in .exe, and "dkm hook" is not in it, each
-- further connect adds dkm's hook to each of the four events once more, behind the entries there.
pub add_hooks-Unrecognised :
    (binary : Text) (root : Members) (h : HookEvent)
    → Unrecognised binary
    → Member h hook_events
    → entries_of h.event (hooks_of binary (add_hooks binary (add_hooks binary root)))
      ≡ with_item
          (entries_of h.event (hooks_of binary (add_hooks binary root)))
          (hook_entry binary h)
add_hooks-Unrecognised binary root h odd m =
    add_hooks_again binary root h m (entry_unknown binary h odd m)
