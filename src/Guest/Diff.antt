-- ===== src/Guest/Diff.antt =====
-- src/diff.rs: `diff_fork`. The lines it prints are its result, with the error that ends them.
pub mod Kinds
pub mod Complete
use fastenv.Base.{
  ℕ, Text, text, Bool, true, false, List, [], ◌∷◌, ◌++◌, ◌||◌, ◌==◌, nat_Eq, list_Eq, ltb, not,
  is_prefix, if◌then◌else◌, Option, none, some, Result, ok, err, ◌>>=◌, ◌>>◌, map_err,
}
use fastenv.Os.{World, Platform, Call, read_dir, write_stdout}
use fastenv.Os.Paths.{FilePath}
use fastenv.Registry.{RegistryError, open_registry_at, get_fork, get_base}
use fastenv.Guest.{Command, CommandError, registry, renamed}

pub data ChangeType : Type 0 where
  added modified deleted : ChangeType

pub record DiffEntry : Type 0 where
  pub path : FilePath
  pub change_type : ChangeType

-- What the walk finds in upper/. `symlink` says whether its target is a device 0:0; an entry whose
-- `metadata` fails is `unknown`, and `broken` ends a listing that cannot be read.
mutual
  pub data Node : Type 0 where
    directory : Entries → Node
    char_device : ℕ → Node
    symlink : Bool → Node
    regular unreadable unknown : Node

  pub data Entries : Type 0 where
    end broken : Entries
    entry : Text → Node → Entries → Entries

-- What is printed, and whether the walk fails after it.
pub record Printed : Type 0 where
  pub lines : List DiffEntry
  pub failed : Bool

-- What is printed is followed by more, unless it ends in an error.
abbrev pub then_print : Printed → Printed → Printed
then_print p q = if p.failed then p else record { lines = p.lines ++ q.lines; failed = q.failed }

abbrev pub printed_none : Printed
printed_none = record { lines = []; failed = false }

-- `file_name()` compares by bytes.
unfoldable pub name_before : Text → Text → Bool
name_before [] b = true
name_before (x ∷ a) [] = false
name_before (x ∷ a) (y ∷ b) =
    let rest = name_before a b in if ltb x y then true else if ltb y x then false else rest

abbrev pub Block : Type 0
Block = Text × Printed

unfoldable pub insert_block : Block → List Block → List Block
unfolding name_before
insert_block b [] = b ∷ []
insert_block b (c ∷ cs) =
    let rest = insert_block b cs in if name_before b.0 c.0 then b ∷ c ∷ cs else c ∷ rest

unfoldable pub print_blocks : List Block → Printed
print_blocks [] = printed_none
print_blocks (b ∷ bs) = then_print b.1 (print_blocks bs)

unfoldable pub is_char_whiteout : Node → Bool
is_char_whiteout (char_device rdev) = rdev == 0
is_char_whiteout (symlink to_whiteout) = to_whiteout
is_char_whiteout (directory entries) = false
is_char_whiteout regular = false
is_char_whiteout unreadable = false
is_char_whiteout unknown = false

abbrev pub is_wh_name : Text → Bool
is_wh_name name = is_prefix (text ".wh.") name

-- Paths are relative to upper/; the argument says which of them exist below the base.
module _ (lower_exists : FilePath → Bool) where
  unfoldable pub change_type_of : FilePath → Text → Node → ChangeType
  unfolding is_char_whiteout
  change_type_of rel name node =
      if is_char_whiteout node || is_wh_name name
      then deleted
      else if lower_exists rel
      then modified
      else added

  -- The line of an entry, then what is below it.
  abbrev pub print_entry : FilePath → Text → Node → Printed → Printed
  print_entry rel name node below =
      then_print
        (record {
          lines = (record { path = rel; change_type = change_type_of rel name node }) ∷ [];
          failed = false;
        })
        below

  abbrev pub add_block : Block → Option (List Block) → Option (List Block)
  add_block b none = none
  add_block b (some bs) = some (insert_block b bs)

  -- A listing that cannot be read fails before anything of it is printed.
  abbrev pub of_blocks : Option (List Block) → Printed
  of_blocks none = record { lines = []; failed = true }
  of_blocks (some bs) = print_blocks bs

  unfoldable mutual
    -- The blocks of a listing by name.
    pub blocks_of : FilePath → Entries → Option (List Block)
    blocks_of dir end = some []
    blocks_of dir broken = none
    blocks_of dir (entry name node rest) =
        add_block
          (
            name,
            print_entry (dir ++ name ∷ []) name node (print_below (dir ++ name ∷ []) name node),
          )
          (blocks_of dir rest)

    -- A directory is walked, but for one whose name marks a whiteout.
    pub print_below : FilePath → Text → Node → Printed
    print_below rel name (directory entries) =
        let below = of_blocks (blocks_of rel entries) in
        if is_wh_name name then printed_none else below
    print_below rel name unreadable =
        if is_wh_name name then printed_none else record { lines = []; failed = true }
    print_below rel name unknown = record { lines = []; failed = true }
    print_below rel name (char_device rdev) = printed_none
    print_below rel name (symlink to_whiteout) = printed_none
    print_below rel name regular = printed_none

  unfoldable pub walk_upper : FilePath → Entries → Printed
  unfolding blocks_of print_blocks
  walk_upper dir entries = of_blocks (blocks_of dir entries)

-- The lines, or an error after some of them were printed.
abbrev pub told : FilePath → Bool → List DiffEntry → Bool → Result CommandError (List DiffEntry)
told upper write_fails [] failed = if failed then err (CommandError.os (read_dir upper)) else ok []
told upper write_fails (e ∷ es) failed =
    if write_fails
    then err (CommandError.os write_stdout)
    else if failed
    then err (CommandError.os (read_dir upper))
    else ok (e ∷ es)

-- What is on the disk at a path, and whether a path exists.
module _ (platform : Platform) (tree_at : World → FilePath → Option Entries)
    (exists_at : World → FilePath → Bool) where
  -- An upper/ that is not there has no changes.
  unfoldable pub diff_upper : FilePath → FilePath → World → Printed
  unfolding walk_upper
  diff_upper upper lower w = elim (tree_at w upper) [
    | none ↦ printed_none
    | some entries ↦ walk_upper (λ rel. exists_at w (lower ++ rel)) [] entries
  ]

  unfoldable pub diff_fork : Text → FilePath → Command (List DiffEntry)
  diff_fork fork_key root = do
    map_err registry (open_registry_at platform root)
    fork ← map_err (renamed fork_key) (get_fork platform fork_key)
    base ← map_err registry (get_base platform fork.base_key)
    λ w.
        let printed = diff_upper fork.upper_path base.lower_path w in
        (told fork.upper_path (platform.fails write_stdout) printed.lines printed.failed, w)
