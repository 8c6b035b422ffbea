-- ===== src/Project/Tests.antt =====
-- The forms of a remote that the source lists, and others.
use dk_agent_memory.Project.{
  normalise_remote, behind_scheme, scp_like, without_user, trim_suffix, is_all_digits, without_port,
  trim_slashes_left, trim_slashes, joined, split_identity,
}
use dk_agent_memory.Base.{
  ◌≡◌, refl, Text, codes, is_space, trim_left, trim_space, index_byte, has_prefix, cut_on,
}

abbrev launcher : Text
launcher = codes "github.com/devkuong/launcher"

scp : normalise_remote (codes "git@github.com:devkuong/launcher.git") ≡ launcher
unfolding normalise_remote behind_scheme scp_like without_user trim_suffix is_all_digits
    without_port trim_slashes_left trim_slashes joined split_identity trim_space trim_left is_space
    has_prefix cut_on index_byte
scp = refl

https : normalise_remote (codes "https://GitHub.com/devkuong/launcher.git") ≡ launcher
unfolding normalise_remote behind_scheme scp_like without_user trim_suffix is_all_digits
    without_port trim_slashes_left trim_slashes joined split_identity trim_space trim_left is_space
    has_prefix cut_on index_byte
https = refl

ssh : normalise_remote (codes "ssh://git@github.com:22/devkuong/launcher") ≡ launcher
unfolding normalise_remote behind_scheme scp_like without_user trim_suffix is_all_digits
    without_port trim_slashes_left trim_slashes joined split_identity trim_space trim_left is_space
    has_prefix cut_on index_byte
ssh = refl
