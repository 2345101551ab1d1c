-- ===== src/Libetcd/Path.antt =====
-- libetcd/dir.c: the relative URI that `etcd_dir_create_` builds from a directory's name.
pub mod Laws
use libcluster.Prelude.{
  ℕ, ◌+◌, Bool, true, false, not, ◌&&◌, List, [], ◌∷◌, ◌++◌, length, ◌==◌, if◌then◌else◌,
}
use libcluster.Prelude.Bytes.{Bytes}

-- `while(*name == '/') name++`
unfoldable pub skip_slashes : Bytes → Bytes
skip_slashes [] = []
skip_slashes (c ∷ cs) = elim (c == b'/') [ true ↦ skip_slashes cs | false ↦ c ∷ cs ]

-- The copying loop, as far as `lp` goes: is it set at the end, when it was so at the start?
pub slash_pending : Bool → Bytes → Bool
slash_pending lp [] = lp
slash_pending lp (c ∷ cs) = slash_pending (not lp && c == b'/') cs

-- The text of the buffer: cut behind the slash that `lp` points to, or with one put behind it.
unfoldable pub dir_path : Bytes → Bytes
dir_path name =
    if slash_pending false (skip_slashes name)
    then skip_slashes name
    else skip_slashes name ++ b'/' ∷ []

-- The bytes that are allocated: `strlen(name) + 2`, after the slashes have been skipped.
abbrev pub dir_path_room : Bytes → ℕ
dir_path_room name = length (skip_slashes name) + 2
