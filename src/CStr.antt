-- ===== src/CStr.antt =====
-- src/impls/mod.rs: `AsCStr` and `FromCStr`, and `path_to_cstring` of src/libc_hooks.rs. A pointer
-- to C characters is the memory from there on.
pub mod Laws
use sandbox_vfs.Base.{
  ℕ, zero, suc, ◌+◌, Bool, true, false, ◌||◌, not, List, [], ◌∷◌, ◌++◌, Bytes, take, ◌==◌,
  if◌then◌else◌, Action, pure, assert, ◌>>=◌, ◌>>◌,
}
use sandbox_vfs.FilePath.{FilePath}
use sandbox_vfs.FilePath.Text.{parse, print}

-- The bytes in front of the first nul.
unfoldable pub strlen : Bytes → ℕ
strlen [] = 0
strlen (c ∷ s) = let rest = strlen s in if c == 0 then 0 else suc rest

unfoldable pub from_cstr : Bytes → FilePath
unfolding strlen parse
from_cstr value = parse (take (strlen value) value)

-- chars.last().is_some_and(|c| *c == 0)
unfoldable pub ends_with_nul : Bytes → Bool
ends_with_nul [] = false
ends_with_nul (c ∷ []) = c == 0
ends_with_nul (c ∷ d ∷ s) = ends_with_nul (d ∷ s)

unfoldable pub as_cstr : {S : Type 0} → Bytes → Action S Bytes
unfolding ends_with_nul
as_cstr chars = do assert (ends_with_nul chars); pure chars

unfoldable pub has_nul : Bytes → Bool
has_nul [] = false
has_nul (c ∷ s) = c == 0 || has_nul s

-- `CString::new` refuses a nul among the bytes.
unfoldable pub path_to_cstring : {S : Type 0} → FilePath → Action S Bytes
unfolding has_nul print
path_to_cstring path = do assert (not (has_nul (print path))); pure (print path ++ 0 ∷ [])
