-- ===== src/Guest/Usage.antt =====
-- src/du.rs: the walk over upper/, and `du_fork`. The human-readable size is not here: it is
-- printed from a floating-point number.
pub mod Sums
use fastenv.Base.{
  pure, ℕ, ◌+◌, ◌-◌, ◌%◌, ◌^◌, Text, ltb, Bool, if◌then◌else◌, Option, none, some, Result, ok, err,
  ◌>>=◌, ◌>>◌, map_err,
}
use fastenv.Schema.{ForkEntry}
use fastenv.Os.{World, Platform, syscall, read_dir, write_stdout, write_stderr}
use fastenv.Os.Paths.{FilePath}
use fastenv.Registry.{open_registry_at, get_fork}
use fastenv.Guest.{Command, CommandError, registry, os, run, renamed}

-- What the walk finds on the disk. A file whose `metadata` fails has no size, an entry whose
-- `file_type` fails is `unknown`, and `broken` is an entry that the iterator fails to read.
mutual
  pub data Node : Type 0 where
    file : Option ℕ → Node
    directory : Entries → Node
    unreadable unknown other : Node

  pub data Entries : Type 0 where
    end broken : Entries
    entry : Text → Node → Entries → Entries

-- `?` on a total.
abbrev pub and_then : Option ℕ → (ℕ → Option ℕ) → Option ℕ
and_then none f = none
and_then (some total) f = f total

unfoldable mutual
  -- `walk_dir`: the new total, or an error.
  pub walk_dir : Entries → ℕ → Option ℕ
  walk_dir end total = some total
  walk_dir broken total = none
  walk_dir (entry name node rest) total = and_then (walk_node node total) (λ t. walk_dir rest t)

  pub walk_node : Node → ℕ → Option ℕ
  walk_node (file none) total = none
  walk_node (file (some len)) total = some ((total + len) % 2 ^ 64)
  walk_node (directory entries) total = walk_dir entries total
  walk_node unreadable total = none
  walk_node unknown total = none
  walk_node other total = some total

-- An absent directory has no bytes; `read_dir` of what is no directory fails.
unfoldable pub walk_upper_bytes : Option Node → Option ℕ
unfolding walk_dir
walk_upper_bytes none = some 0
walk_upper_bytes (some (directory entries)) = walk_dir entries 0
walk_upper_bytes (some (file len)) = none
walk_upper_bytes (some unreadable) = none
walk_upper_bytes (some unknown) = none
walk_upper_bytes (some other) = none

pub record DuOutput : Type 0 where
  pub fork_id : Text
  pub usage_bytes : ℕ
  pub quota_bytes : Option ℕ
  pub overage_bytes : Option ℕ

-- `quota_bytes.filter(|&q| usage_bytes > q).map(|q| usage_bytes - q)`
unfoldable pub overage : ℕ → Option ℕ → Option ℕ
overage usage_bytes none = none
overage usage_bytes (some q) = if ltb q usage_bytes then some (usage_bytes - q) else none

abbrev pub measured : FilePath → Option ℕ → Command ℕ
measured upper none w = (err (os (read_dir upper)), w)
measured upper (some usage) w = (ok usage, w)

-- What is on the disk at a path.
module _ (platform : Platform) (tree_at : World → FilePath → Option Node) where
  -- A usage above the quota is also told on stderr.
  abbrev pub warn : Option ℕ → Command Unit
  warn none = pure tt
  warn (some over) = run (syscall platform write_stderr)

  unfoldable pub du_fork : Text → FilePath → Command DuOutput
  du_fork fork_key root = do
    map_err registry (open_registry_at platform root)
    found ← map_err (renamed fork_key) (get_fork platform fork_key)
    usage ← λ w. measured found.upper_path (walk_upper_bytes (tree_at w found.upper_path)) w
    run (syscall platform write_stdout)
    warn (overage usage found.quota_bytes)
    λ w. (
      ok (record {
        fork_id = fork_key;
        usage_bytes = usage;
        quota_bytes = found.quota_bytes;
        overage_bytes = overage usage found.quota_bytes;
      }),
      w,
    )
