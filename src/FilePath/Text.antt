-- ===== src/FilePath/Text.antt =====
-- `std::path::Path` as bytes: what `Path::new(bytes).components()` yields, and the bytes of a path
-- that was built from components.
pub mod Split
pub mod Print
use sandbox_vfs.Base.{
  ℕ, Bool, true, false, ◌||◌, List, [], ◌∷◌, ◌++◌, Bytes, bytes_eq, codes, ◌==◌, if◌then◌else◌,
}
use sandbox_vfs.FilePath.{FilePath, Component, root_dir, cur_dir, parent_dir, normal}

-- b'/'
abbrev pub separator : ℕ
separator = 47

abbrev pub push_byte : ℕ → List Bytes → List Bytes
push_byte c [] = (c ∷ []) ∷ []
push_byte c (piece ∷ pieces) = (c ∷ piece) ∷ pieces

-- What stands between the separators.
unfoldable pub split : Bytes → List Bytes
split [] = [] ∷ []
split (c ∷ s) = if c == separator then [] ∷ split s else push_byte c (split s)

-- Empty pieces and `.` are skipped.
unfoldable pub components : List Bytes → FilePath
components [] = []
components (piece ∷ pieces) =
    if bytes_eq piece [] || bytes_eq piece (codes ".")
    then components pieces
    else if bytes_eq piece (codes "..")
    then parent_dir ∷ components pieces
    else normal piece ∷ components pieces

-- A `.` at the front of a relative path is kept.
abbrev pub leading_dot : List Bytes → FilePath
leading_dot [] = []
leading_dot (piece ∷ pieces) = if bytes_eq piece (codes ".") then cur_dir ∷ [] else []

abbrev pub leading_root : Bytes → Bool
leading_root [] = false
leading_root (c ∷ s) = c == separator

-- Path::new(bytes).components()
unfoldable pub parse : Bytes → FilePath
unfolding split components
parse s =
    if leading_root s
    then root_dir ∷ components (split s)
    else leading_dot (split s) ++ components (split s)

abbrev pub component_bytes : Component → Bytes
component_bytes root_dir = []
component_bytes cur_dir = codes "."
component_bytes parent_dir = codes ".."
component_bytes (normal name) = name

-- A separator stands between two components.
unfoldable pub print_relative : FilePath → Bytes
print_relative [] = []
print_relative (c ∷ []) = component_bytes c
print_relative (c ∷ d ∷ p) = component_bytes c ++ separator ∷ print_relative (d ∷ p)

-- as_os_str().as_bytes()
unfoldable pub print : FilePath → Bytes
unfolding print_relative
print (root_dir ∷ p) = separator ∷ print_relative p
print p = print_relative p
