-- ===== src/Connect/Tests.antt =====
-- Documents and files that dkm is written into.
use dk_agent_memory.Connect.Json.{Members, no_members, member_of, Disk, merge_json, replaced_file}
use dk_agent_memory.Connect.Hooks.{HookEvent, with_item, hook_entry, entries_of, add_hooks}
use dk_agent_memory.Connect.Entries.{hooks_of}
use dk_agent_memory.Connect.Commands.{quoted}
use dk_agent_memory.Connect.Repeat.{
  unchanged, write_claude_hooks, write_claude_hooks-repeat, add_hooks-Unrecognised,
}
use dk_agent_memory.Connect.Codex.{
  split_codex_section, split_lines, next_header, with_codex_section, codex_section,
  trim_newlines_left, trim_newlines_right, newline,
}
use dk_agent_memory.Connect.Agents.{
  mcp_servers, server_name, server_entry, add_server, remove_server,
}
use dk_agent_memory.Connect.Servers.{servers_of, SameButDkm, remove_server-add_server}
use dk_agent_memory.Connect.Codex.{write_codex_toml}
use dk_agent_memory.Connect.Again.{write_codex_toml-repeat}
use dk_agent_memory.Base.{
  ◌≡◌, refl, true, Option, none, some, [], ◌∷◌, ◌++◌, if◌then◌else◌, Text, codes, text_eq, is_space,
  trim_left, trim_space, join, has_prefix, split_from, split_on, contains_text, here, ok,
}

abbrev program_files : Text
program_files = codes "C:/Program Files/dkm"

abbrev session_start : HookEvent
session_start = record { event = codes "SessionStart"; command = codes "session-start" }

add_hooks-Unrecognised_example :
    entries_of
      (codes "SessionStart")
      (hooks_of program_files (add_hooks program_files (add_hooks program_files no_members)))
    ≡ with_item
        (entries_of
          (codes "SessionStart")
          (hooks_of program_files (add_hooks program_files no_members)))
        (hook_entry program_files session_start)
unfolding contains_text has_prefix
add_hooks-Unrecognised_example =
    add_hooks-Unrecognised program_files no_members session_start (quoted program_files refl refl)
      here

-- The settings with dkm's hooks, as they are written here.
abbrev settings : Text
settings = codes "{hooks}"

abbrev encode_settings : Members → Text
encode_settings ms = settings

abbrev decode_settings : Text → Option (Option Members)
decode_settings s =
    if text_eq s (settings ++ 10 ∷ [])
    then some (some (add_hooks (codes "/bin/dkm") no_members))
    else none

abbrev empty_disk : Disk
empty_disk path = none

abbrev one_file : Disk
one_file path = if text_eq path (codes "/s") then some (settings ++ 10 ∷ []) else none

write_claude_hooks-repeat_example :
    write_claude_hooks decode_settings encode_settings (codes "/s") (codes "/bin/dkm") one_file
    ≡ ok (unchanged one_file)
unfolding write_claude_hooks merge_json replaced_file trim_space trim_left is_space text_eq
write_claude_hooks-repeat_example =
    write_claude_hooks-repeat decode_settings encode_settings (codes "/s") (codes "/bin/")
      empty_disk no_members refl refl refl refl refl
      (record { changed = true; backup = []; disk = one_file }) refl

remove_server-add_server_example :
    (member_of server_name
        (servers_of mcp_servers (add_server mcp_servers (codes "/bin/dkm") no_members))
      ≡ some (server_entry mcp_servers (codes "/bin/dkm")))
    × SameButDkm mcp_servers no_members (add_server mcp_servers (codes "/bin/dkm") no_members)
    × (member_of server_name (
          servers_of mcp_servers
            (remove_server mcp_servers (add_server mcp_servers (codes "/bin/dkm") no_members)))
        ≡ none)
    × SameButDkm mcp_servers no_members
        (remove_server mcp_servers (add_server mcp_servers (codes "/bin/dkm") no_members))
remove_server-add_server_example =
    remove_server-add_server mcp_servers (codes "/bin/dkm") no_members

abbrev toml : Text
toml =
    codes "model = 1"
    ++ (newline
        ∷ (codes "[mcp_servers.dkm]"
            ++ (newline ∷ (codes "args = [1]" ++ (newline ∷ codes "[b]")))))

split_toml : split_codex_section toml ≡ some (codes "model = 1", codes "[b]")
unfolding split_codex_section split_lines next_header split_on split_from join has_prefix trim_space
    trim_left is_space text_eq
split_toml = refl

again :
    with_codex_section
      (codex_section (codes "x"))
      (with_codex_section (codex_section (codes "x")) toml)
    ≡ with_codex_section (codex_section (codes "x")) toml
unfolding with_codex_section codex_section trim_newlines_left trim_newlines_right
    split_codex_section split_lines next_header split_on split_from join has_prefix trim_space
    trim_left is_space text_eq
again = refl

abbrev toml_disk : Disk
toml_disk path = if text_eq path (codes "/c") then some toml else none

write_codex_toml-repeat_example :
    write_codex_toml
      (codes "/c")
      (codes "x")
      (write_codex_toml (codes "/c") (codes "x") toml_disk).disk
    ≡ unchanged (write_codex_toml (codes "/c") (codes "x") toml_disk).disk
write_codex_toml-repeat_example =
    write_codex_toml-repeat (codes "/c") (codes "x") toml_disk (refl, tt)
