-- ===== src/Connect/Codex.antt =====
-- internal/connect/writers.go: dkm's section of the `config.toml` of Codex.
--
-- `%q`, which quotes the path of the program, is an argument; failures of the disk are left
-- out.
use dk_agent_memory.Connect.Json.{Disk, write_file, or_empty, Written, replaced_file}
use mathlib.Core.List.{reverse}
use dk_agent_memory.Base.{
  ℕ, true, false, Option, none, some, List, [], ◌∷◌, ◌++◌, ◌==◌, if◌then◌else◌, Text, codes,
  text_eq, is_empty, is_space, trim_left, trim_space, join, has_prefix, split_on,
}

abbrev pub codex_header : Text
codex_header = codes "[mcp_servers.dkm]"

abbrev pub newline : ℕ
newline = 10

pub data Split : Type 0 where
  not_found : Split
  found_section : (before after : List Text) → Split

-- From the next header on.
unfoldable pub next_header : List Text → List Text
unfolding has_prefix trim_space trim_left is_space
next_header [] = []
next_header (line ∷ lines) =
    let rest = next_header lines in
    if has_prefix (trim_space line) (codes "[") then line ∷ lines else rest

abbrev pub behind_other_line : Text → Split → Split
behind_other_line line not_found = not_found
behind_other_line line (found_section before after) = found_section (line ∷ before) after

unfoldable pub split_lines : List Text → Split
unfolding next_header text_eq
split_lines [] = not_found
split_lines (line ∷ lines) =
    let rest = behind_other_line line (split_lines lines) in
    if text_eq (trim_space line) codex_header then found_section [] (next_header lines) else rest

abbrev pub joined_split : Split → Option (Text × Text)
joined_split not_found = none
joined_split (found_section before after) =
    some (join (newline ∷ []) before, join (newline ∷ []) after)

-- The text before dkm's section and the text behind it, if there is one.
unfoldable pub split_codex_section : Text → Option (Text × Text)
unfolding split_lines split_on
split_codex_section s = joined_split (split_lines (split_on newline s))

-- `TrimLeft(s, "\n")`
unfoldable pub trim_newlines_left : Text → Text
trim_newlines_left [] = []
trim_newlines_left (c ∷ s) = if c == newline then trim_newlines_left s else c ∷ s

-- `TrimRight(s, "\n")`
unfoldable pub trim_newlines_right : Text → Text
unfolding trim_newlines_left
trim_newlines_right s = reverse (trim_newlines_left (reverse s))

-- `separator` and a text, or nothing where the text is empty.
abbrev pub joined_by : Text → Text → Text
joined_by separator [] = []
joined_by separator (c ∷ s) = separator ++ (c ∷ s)

abbrev pub closed_by : Text → Text → Text
closed_by [] separator = []
closed_by (c ∷ s) separator = (c ∷ s) ++ separator

unfoldable pub codex_section : Text → Text
codex_section quoted =
    codes "[mcp_servers.dkm]"
    ++ (newline
        ∷ (codes "command = "
            ++ (quoted
                ++ (newline
                    ∷ (codes "args = [\"mcp\"]"
                        ++ (newline ∷ (codes "startup_timeout_sec = 20" ++ newline ∷ [])))))))

-- The new text of the file.
abbrev pub placed : Text → Text → Option (Text × Text) → Text
placed original section (some (before, after)) =
    closed_by (trim_newlines_right before) (newline ∷ newline ∷ [])
    ++ (section ++ joined_by (newline ∷ []) (trim_newlines_left after))
placed original section none =
    if is_empty (trim_space original)
    then section
    else trim_newlines_right original ++ (newline ∷ newline ∷ section)

unfoldable pub with_codex_section : Text → Text → Text
unfolding split_codex_section trim_newlines_left trim_newlines_right
with_codex_section section original = placed original section (split_codex_section original)

-- `writeCodexTOML`, `quoted` being the path of the program in quotes.
unfoldable pub write_codex_toml : Text → Text → Disk → Written
unfolding with_codex_section replaced_file codex_section
write_codex_toml path quoted disk =
    let original = or_empty (disk path) in
    let updated = with_codex_section (codex_section quoted) original in
    if text_eq (trim_space updated) (trim_space original)
    then record { changed = false; backup = []; disk = disk }
    else replaced_file disk path original updated

-- The text without the section.
unfoldable pub without_codex_section : Text → Text → Text
unfolding trim_newlines_left trim_newlines_right
without_codex_section before after =
    trim_newlines_right (
      if is_empty (trim_newlines_right before)
      then trim_newlines_left after
      else trim_newlines_right before
        ++ joined_by (newline ∷ newline ∷ []) (trim_newlines_left after))
    ++ newline ∷ []

abbrev pub removed_section : Text → Text → Disk → Option (Text × Text) → Written
removed_section path original disk none = record { changed = false; backup = []; disk = disk }
removed_section path original disk (some (before, after)) = record {
  changed = true;
  backup = path ++ codes ".bak";
  disk =
      write_file (write_file disk (path ++ codes ".bak") original) path
        (without_codex_section before after);
}

-- `removeCodexTOML`; an absent file has no section.
unfoldable pub remove_codex_toml : Text → Disk → Written
unfolding split_codex_section without_codex_section
remove_codex_toml path disk =
    removed_section path (or_empty (disk path)) disk (split_codex_section (or_empty (disk path)))
