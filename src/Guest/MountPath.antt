-- ===== src/Guest/MountPath.antt =====
-- src/mount_path.rs: `mount_path` and `unmount_fork`. What `mount_path` prints is its result.
pub mod Steps
pub mod Mounting
use fastenv.Base.{
  Text, text, [], Bool, true, false, if◌then◌else◌, Option, none, some, ok, err, Io, pure, ◌>>=◌,
  ◌>>◌, map_err,
}
use fastenv.Schema.{ForkEntry}
use fastenv.Os.{
  World, Platform, MountRequest, exists, is_mounted, sys_mount, sys_unmount, create_dirs,
  remove_empty,
}
use fastenv.Os.Paths.{FilePath, display}
use fastenv.Registry.{open_registry_at, get_fork, insert_fork}
use fastenv.Guest.{CommandError, not_mounted, registry, Command, run, renamed}
use fastenv.Guest.Fork.{merged_of}

abbrev pub or_default : FilePath → Option FilePath → FilePath
or_default p none = p
or_default p (some q) = q

-- A bind mount of one directory on another.
abbrev pub bind_request : FilePath → FilePath → MountRequest
bind_request source target = record {
  source = display source;
  target = target;
  filesystem = text "none";
  flags = text "bind";
  options = [];
}

module _ (platform : Platform) where
  -- `matches!(path, Some(p) if is_mounted(p)?)`
  unfoldable pub active_mount : Option FilePath → Command (Option FilePath)
  active_mount none = pure none
  active_mount (some p) = do
    mounted ← run (is_mounted platform p)
    pure (if mounted then some p else none)

  -- Steps 3 to 6 of `mount_path`.
  unfoldable pub mount_anew : FilePath → Text → ForkEntry → Command FilePath
  mount_anew root fork_key entry = do
    run (create_dirs platform (merged_of root fork_key))
    run (
        sys_mount platform (
          bind_request (or_default (merged_of root fork_key) entry.merged_path)
            (merged_of root fork_key)))
    map_err registry (
        insert_fork platform fork_key
          (record entry { merged_path = some (merged_of root fork_key) }))
    pure (merged_of root fork_key)

  abbrev pub or_mount_anew : FilePath → Text → ForkEntry → Option FilePath → Command FilePath
  or_mount_anew root fork_key entry none = mount_anew root fork_key entry
  or_mount_anew root fork_key entry (some mounted) = pure mounted

  unfoldable pub mount_path : Text → FilePath → Command FilePath
  mount_path fork_key root = do
    map_err registry (open_registry_at platform root)
    entry ← map_err (renamed fork_key) (get_fork platform fork_key)
    active ← active_mount entry.merged_path
    or_mount_anew root fork_key entry active

  unfoldable pub remove_mount_point : FilePath → Command Unit
  remove_mount_point p w = if exists w p then run (remove_empty platform p) w else (ok tt, w)

  unfoldable pub unmount_active : Text → ForkEntry → Option FilePath → Command Unit
  unfolding remove_mount_point
  unmount_active fork_key entry none = λ w. (err (not_mounted fork_key), w)
  unmount_active fork_key entry (some merged_path) = do
    run (sys_unmount platform merged_path)
    remove_mount_point merged_path
    map_err registry (insert_fork platform fork_key (record entry { merged_path = none }))

  unfoldable pub unmount_fork : Text → FilePath → Command Unit
  unmount_fork fork_key root = do
    map_err registry (open_registry_at platform root)
    entry ← map_err (renamed fork_key) (get_fork platform fork_key)
    active ← active_mount entry.merged_path
    unmount_active fork_key entry active
