-- ===== src/Project.antt =====
-- internal/client/project.go: the identity of a project from the URL of its git remote.
mod Tests
use mathlib.Core.List.{reverse}
use dk_agent_memory.Base.{
  ℕ, suc, ◌-◌, ◌/◌, Bool, not, ◌&&◌, Option, none, some, [], ◌∷◌, ◌++◌, map, ltb, leb, ◌==◌,
  if◌then◌else◌, length, take, drop, all, Text, codes, is_empty, trim_space, to_lower, index_byte,
  has_prefix, Cut, cut_on, uncut, halves,
}

-- `strings.Cut` at a separator of three bytes, `://`.
unfoldable pub behind_scheme : Text → Option Text
behind_scheme [] = none
behind_scheme (c ∷ s) =
    let later = behind_scheme s in
    if has_prefix (c ∷ s) (codes "://") then some (drop 3 (c ∷ s)) else later

abbrev pub behind : Text → Cut → Text
behind s uncut = s
behind s (halves before after) = after

-- `user@host:path`
unfoldable pub scp_like : Text → Text
scp_like s =
    let host_path = behind s (cut_on b'@' s) in
    elim (cut_on b':' host_path) [ uncut ↦ host_path | halves host path ↦ host ++ (b'/' ∷ path) ]

abbrev pub position : Option ℕ → ℕ → ℕ
position none default = default
position (some i) default = i

-- A user before the host, if its `@` stands before the first slash; `s + "/"` always has one.
unfoldable pub without_user : Text → Text
without_user s = elim (index_byte b'@' s) [
  | none ↦ s
  | some at ↦ if ltb at (position (index_byte b'/' s) (length s)) then drop (suc at) s else s
]

unfoldable pub trim_suffix : Text → Text → Text
trim_suffix s suffix =
    if has_prefix (reverse s) (reverse suffix) then take (length s - length suffix) s else s

unfoldable pub is_all_digits : Text → Bool
is_all_digits s = not (is_empty s) && all (λ c. leb b'0' c && leb c b'9') s

-- An explicit port goes.
unfoldable pub without_port : Text → Text
unfolding is_all_digits
without_port host = elim (cut_on b':' host) [
  | uncut ↦ host
  | halves name port ↦ if is_all_digits port then name else host
]

unfoldable pub trim_slashes_left : Text → Text
trim_slashes_left [] = []
trim_slashes_left (c ∷ s) = if c == b'/' then trim_slashes_left s else c ∷ s

-- `strings.Trim(path, "/")`
unfoldable pub trim_slashes : Text → Text
unfolding trim_slashes_left
trim_slashes s = reverse (trim_slashes_left (reverse (trim_slashes_left s)))

unfoldable pub joined : Text → Text → Text
unfolding without_port trim_slashes
joined host path =
    if is_empty (trim_slashes path)
    then []
    else map to_lower (without_port host) ++ (b'/' ∷ trim_slashes path)

unfoldable pub split_identity : Text → Text
unfolding joined
split_identity s = elim (cut_on b'/' s) [ uncut ↦ [] | halves host path ↦ joined host path ]

abbrev pub without_scheme : Text → Option Text → Text
unfolding scp_like without_user
without_scheme s none = scp_like s
without_scheme s (some rest) = without_user rest

unfoldable pub normalise_remote : Text → Text
unfolding behind_scheme trim_suffix split_identity scp_like without_user
normalise_remote remote =
    let s = trim_space remote in
    if is_empty s
    then []
    else split_identity
        (trim_suffix (trim_suffix (without_scheme s (behind_scheme s)) (codes "/")) (codes ".git"))
