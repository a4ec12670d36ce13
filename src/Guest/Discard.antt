-- ===== src/Guest/Discard.antt =====
-- src/discard.rs: `discard_fork`, the whole pipeline.
pub mod Steps
pub mod Releases
use fastenv.Base.{
  Text, Bool, true, false, if◌then◌else◌, Option, none, some, ok, err, Io, pure, ◌>>=◌, ◌>>◌,
  map_err,
}
use fastenv.Schema.{ForkEntry}
use fastenv.Os.{World, Platform, exists, is_mounted, sys_unmount, remove_tree, remove_empty}
use fastenv.Os.Paths.{FilePath}
use fastenv.Registry.{open_registry_at, get_fork, remove_fork}
use fastenv.Guest.{CommandError, registry, Command, run, renamed}
use fastenv.Guest.Fork.{fork_dir}

module _ (platform : Platform) where
  -- Step 2: the merged view is unmounted if /proc/mounts lists it.
  unfoldable pub unmount_if_mounted : Option FilePath → Command Unit
  unmount_if_mounted none = pure tt
  unmount_if_mounted (some merged_path) = do
    mounted ← run (is_mounted platform merged_path)
    λ w. if mounted then run (sys_unmount platform merged_path) w else (ok tt, w)

  -- `if path.exists() { remove_dir_all(path)?; }`
  unfoldable pub remove_if_exists : FilePath → Command Unit
  remove_if_exists p w = if exists w p then run (remove_tree platform p) w else (ok tt, w)

  -- `if path.exists() { remove_dir(path).ok(); }`
  unfoldable pub remove_best_effort : FilePath → Command Unit
  remove_best_effort p w = if exists w p then (ok tt, (remove_empty platform p w).1) else (ok tt, w)

  unfoldable pub remove_merged : Option FilePath → Command Unit
  remove_merged none = pure tt
  remove_merged (some merged_path) = remove_best_effort merged_path

  unfoldable pub discard_fork : Text → FilePath → Command Unit
  discard_fork fork_key root = do
    map_err registry (open_registry_at platform root)
    entry ← map_err (renamed fork_key) (get_fork platform fork_key)
    unmount_if_mounted entry.merged_path
    remove_if_exists entry.upper_path
    remove_if_exists entry.work_path
    remove_merged entry.merged_path
    remove_best_effort (fork_dir root fork_key)
    map_err registry (remove_fork platform fork_key)
