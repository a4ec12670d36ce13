-- ===== src/Os/Paths.antt =====
-- `std::path::Path`: an absolute path as the list of its components.
pub mod Display
use fastenv.Base.{
  Text, split, list_eq, Bool, false, not, ◌||◌, List, [], ◌∷◌, ◌++◌, ◌==◌, nat_Eq, list_Eq, filter,
  map, if◌then◌else◌,
}

abbrev pub FilePath : Type 0
FilePath = List Text

-- Empty pieces and `.` are no components. `..` is one, and is resolved by the kernel.
abbrev pub is_component : Text → Bool
is_component s = not (s == [] || s == b'.' ∷ [])

unfoldable pub components : Text → List Text
unfolding split list_eq
components s = filter is_component (split b'/' s)

abbrev pub is_absolute : Text → Bool
is_absolute [] = false
is_absolute (c ∷ s) = c == b'/'

-- `path.join(s)`: an absolute `s` replaces the path.
unfoldable pub join : FilePath → Text → FilePath
unfolding components
join p s = if is_absolute s then components s else p ++ components s

-- `path.display()`
abbrev pub display : FilePath → Text
display [] = []
display (s ∷ p) = b'/' ∷ s ++ display p

-- The path and its ancestors below the root directory, each of which `create_dir_all` makes.
abbrev pub inits : FilePath → List FilePath
inits [] = []
inits (s ∷ p) = (s ∷ []) ∷ map (◌∷◌ s) (inits p)
