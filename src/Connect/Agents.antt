-- ===== src/Connect/Agents.antt =====
-- internal/connect/writers.go and agents.go: `Connect`, `Disconnect` and `IsConnected`.
--
-- `skill` is the text that is embedded from internal/mcp, and `%q` of the program's path is a parameter.
use dk_agent_memory.Connect.Json.{
  Json, boolean, string, array, object, no_items, item, Members, no_members, member, member_of,
  with_member, without_member, as_object, in_child, if_object, Disk, write_file, or_empty,
  ConnectError, no_config_location, Written, merge_json,
}
use dk_agent_memory.Connect.Hooks.{remove_hooks}
use dk_agent_memory.Connect.Repeat.{write_claude_hooks}
use dk_agent_memory.Connect.Codex.{codex_header, write_codex_toml, remove_codex_toml}
use dk_agent_memory.Base.{
  Bool, true, false, not, ◌&&◌, ◌||◌, Option, none, some, List, [], ◌∷◌, if◌then◌else◌, is_some,
  Text, codes, text_eq, is_empty, Result, ◌>>=◌, contains_text, ok, err,
}

pub data Format : Type 0 where
  mcp_servers : Format
  open_code : Format
  codex_toml : Format
  gemini : Format

pub record Agent : Type 0 where
  pub config_candidates : List Text
  pub hook_path : Text
  pub format : Format
  pub supports_hooks : Bool
  pub supports_skills : Bool
  pub skill_path : Text

pub record Connected : Type 0 where
  pub config_path : Text
  pub hook_path : Text
  pub changed : Bool
  pub backup : Text
  pub hooks : Bool
  pub skill : Text
  pub disk : Disk

abbrev pub server_name : Text
server_name = codes "dkm"

abbrev pub file_exists : Disk → Text → Bool
file_exists disk path = is_some (disk path)

unfoldable pub first_existing : Disk → List Text → Option Text
first_existing disk [] = none
first_existing disk (p ∷ ps) =
    if not (is_empty p) && file_exists disk p then some p else first_existing disk ps

unfoldable pub first_named : List Text → Text
first_named [] = []
first_named (p ∷ ps) = if is_empty p then first_named ps else p

abbrev pub or_named : List Text → Option Text → Text
or_named ps (some p) = p
or_named ps none = first_named ps

-- `ConfigPath`
unfoldable pub config_path : Disk → Agent → Text
unfolding first_existing first_named
config_path disk a = or_named a.config_candidates (first_existing disk a.config_candidates)

abbrev pub is_codex : Format → Bool
is_codex mcp_servers = false
is_codex open_code = false
is_codex codex_toml = true
is_codex gemini = false

-- The key that the servers stand under.
abbrev pub servers_key : Format → Text
servers_key mcp_servers = codes "mcpServers"
servers_key open_code = codes "mcp"
servers_key codex_toml = codes "mcpServers"
servers_key gemini = codes "mcpServers"

abbrev pub plain_entry : Text → Json
plain_entry binary = object (
    member (codes "command") (string binary)
      (member (codes "args") (array (item (string (codes "mcp")) no_items)) no_members))

abbrev pub open_code_entry : Text → Json
open_code_entry binary = object (
    member (codes "type") (string (codes "local")) (
      member (codes "command") (array (item (string binary) (item (string (codes "mcp")) no_items)))
        (member (codes "enabled") (boolean true) no_members)))

abbrev pub server_entry : Format → Text → Json
server_entry mcp_servers binary = plain_entry binary
server_entry open_code binary = open_code_entry binary
server_entry codex_toml binary = plain_entry binary
server_entry gemini binary = plain_entry binary

unfoldable pub add_server : Format → Text → Members → Members
unfolding in_child with_member
add_server format binary =
    in_child (servers_key format) (with_member server_name (server_entry format binary))

unfoldable pub remove_server : Format → Members → Members
unfolding without_member member_of with_member
remove_server format root =
    if_object (servers_key format) root (without_member server_name)
      (as_object (member_of (servers_key format) root))

-- `writeSkill`, where it is to be written.
unfoldable pub write_skill : Text → Text → Disk → Disk
write_skill skill path disk =
    if file_exists disk path && text_eq (or_empty (disk path)) skill
    then disk
    else write_file disk path skill

module _ (unmarshal : Text → Option (Option Members)) (marshal : Members → Text)
    (quote : Text → Text) (skill : Text) where
  unfoldable pub write_config : Agent → Text → Text → Disk → Result ConnectError Written
  unfolding merge_json write_codex_toml add_server
  write_config a path binary disk =
      if is_codex a.format
      then ok (write_codex_toml path (quote binary) disk)
      else merge_json unmarshal marshal path true (add_server a.format binary) disk

  abbrev pub hooked : Agent → Bool
  hooked a = a.supports_hooks && not (is_codex a.format)

  unfoldable pub add_agent_hooks : Agent → Text → Connected → Result ConnectError Connected
  unfolding write_claude_hooks
  add_agent_hooks a binary c = if not (hooked a) then ok c else do
    w ← write_claude_hooks unmarshal marshal a.hook_path binary c.disk
    ok (record c {
      hooks = true;
      hook_path = a.hook_path;
      changed = c.changed || w.changed;
      backup = if is_empty c.backup then w.backup else c.backup;
      disk = w.disk;
    })

  abbrev pub add_skill : Agent → Connected → Connected
  add_skill a c =
      if a.supports_skills && not (is_empty a.skill_path)
      then record c { skill = a.skill_path; disk = write_skill skill a.skill_path c.disk }
      else c

  abbrev pub begun : Text → Written → Connected
  begun path w = record {
    config_path = path;
    hook_path = [];
    changed = w.changed;
    backup = w.backup;
    hooks = false;
    skill = [];
    disk = w.disk;
  }

  -- `Connect`
  unfoldable pub connect : Agent → Text → Disk → Result ConnectError Connected
  unfolding write_config add_agent_hooks config_path
  connect a binary disk =
      let path = config_path disk a in
      if is_empty path then err no_config_location else do
        w ← write_config a path binary disk
        c ← add_agent_hooks a binary (begun path w)
        ok (add_skill a c)

  unfoldable pub remove_config : Agent → Text → Disk → Result ConnectError Written
  unfolding merge_json remove_codex_toml remove_server
  remove_config a path disk =
      if is_codex a.format
      then ok (remove_codex_toml path disk)
      else merge_json unmarshal marshal path false (remove_server a.format) disk

  unfoldable pub remove_agent_hooks : Agent → Connected → Result ConnectError Connected
  unfolding merge_json remove_hooks
  remove_agent_hooks a c = if not (hooked a && file_exists c.disk a.hook_path) then ok c else do
    w ← merge_json unmarshal marshal a.hook_path false remove_hooks c.disk
    ok (record c { changed = c.changed || w.changed; disk = w.disk })

  -- `Disconnect`
  unfoldable pub disconnect : Agent → Disk → Result ConnectError Connected
  unfolding remove_config remove_agent_hooks config_path
  disconnect a disk =
      let path = config_path disk a in
      if is_empty path || not (file_exists disk path)
      then ok (begun path (record { changed = false; backup = []; disk = disk }))
      else do w ← remove_config a path disk; remove_agent_hooks a (begun path w)

  abbrev pub has_server : Option Members → Bool
  has_server none = false
  has_server (some servers) = is_some (member_of server_name servers)

  abbrev pub is_registered : Agent → Option (Option Members) → Bool
  is_registered a none = false
  is_registered a (some none) = false
  is_registered a (some (some root)) =
      has_server (as_object (member_of (servers_key a.format) root))

  -- `IsConnected`
  unfoldable pub is_connected : Agent → Disk → Bool
  unfolding config_path contains_text member_of
  is_connected a disk =
      let path = config_path disk a in
      if is_empty path || not (file_exists disk path)
      then false
      else if is_codex a.format
      then contains_text (or_empty (disk path)) codex_header
      else is_registered a (unmarshal (or_empty (disk path)))
