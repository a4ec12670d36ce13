-- ===== src/Guest/Fork.antt =====
-- src/fork.rs: `fork_base`, the whole pipeline. The time is an argument.
pub mod Steps
pub mod Registers
use fastenv.Base.{
  ℕ, Text, text, has_char, Bool, true, false, List, [], ◌∷◌, ◌++◌, map, if◌then◌else◌, Option, none,
  some, Result, ok, err, Io, ◌>>=◌, ◌>>◌, map_err,
}
use fastenv.Schema.{BaseEntry, ForkEntry, QuotaMode}
use fastenv.Os.{World, Platform, MountRequest, create_dirs, sys_mount}
use fastenv.Os.Paths.{FilePath, join, display}
use fastenv.Registry.{RegistryError, open_registry_at, get_base, get_fork, insert_fork}
use fastenv.Guest.{CommandError, already_exists, registry, null_byte, Command, run, renamed}
use fastenv.Guest.Quota.{choose_quota_mode}

unfoldable pub fork_dir : FilePath → Text → FilePath
unfolding join
fork_dir root fork_key = join (join root (text "forks")) fork_key

abbrev pub upper_of : FilePath → Text → FilePath
upper_of root fork_key = join (fork_dir root fork_key) (text "upper")

abbrev pub work_of : FilePath → Text → FilePath
work_of root fork_key = join (fork_dir root fork_key) (text "work")

abbrev pub merged_of : FilePath → Text → FilePath
merged_of root fork_key = join (fork_dir root fork_key) (text "merged")

-- `dirs.join(":")`
unfoldable pub join_colon : List Text → Text
join_colon [] = []
join_colon (d ∷ []) = d
join_colon (d ∷ e ∷ ds) = d ++ b':' ∷ join_colon (e ∷ ds)

-- The data of the overlayfs mount.
unfoldable pub mount_data : BaseEntry → FilePath → FilePath → Text
unfolding join_colon
mount_data base upper_path work_path =
    text "lowerdir="
    ++ (join_colon (display base.lower_path ∷ map display base.cache_lower_paths)
        ++ (text ",upperdir=" ++ (display upper_path ++ (text ",workdir=" ++ display work_path))))

abbrev pub overlay_request : FilePath → Text → MountRequest
overlay_request merged_path options = record {
  source = text "overlay";
  target = merged_path;
  filesystem = text "overlay";
  flags = [];
  options = options;
}

-- The key must not be in use: an error of `get_fork` other than `NotFound` ends the command.
abbrev pub absence : Text → Result RegistryError ForkEntry → Result CommandError (Unit {0})
absence key (ok entry) = err (already_exists key)
absence key (err (RegistryError.not_found j)) = ok tt
absence key (err (RegistryError.io c)) = err (registry (RegistryError.io c))
absence key (err RegistryError.json) = err (registry RegistryError.json)
absence key (err RegistryError.persist) = err (registry RegistryError.persist)

abbrev pub fork_entry : FilePath → Text → Text → Option ℕ → QuotaMode → Text → ForkEntry
fork_entry root base_key fork_key quota_bytes mode now = record {
  base_key = base_key;
  upper_path = upper_of root fork_key;
  work_path = work_of root fork_key;
  merged_path = some (merged_of root fork_key);
  quota_bytes = quota_bytes;
  quota_mode = mode;
  created_at = now;
  labels = [];
}

module _ (platform : Platform) (root : FilePath) where
  unfoldable pub ensure_absent : Text → Command Unit
  ensure_absent fork_key w =
      (absence fork_key (get_fork platform fork_key w).0, (get_fork platform fork_key w).1)

  -- `CString::new` refuses a text that contains a null.
  unfoldable pub mount_overlay : BaseEntry → Text → Command Unit
  mount_overlay base fork_key w =
      let options = mount_data base (upper_of root fork_key) (work_of root fork_key) in
      if has_char 0 options
      then (err null_byte, w)
      else run (sys_mount platform (overlay_request (merged_of root fork_key) options)) w

  unfoldable pub create_fork_dirs : Text → Command Unit
  create_fork_dirs fork_key = do
    run (create_dirs platform (upper_of root fork_key))
    run (create_dirs platform (work_of root fork_key))
    run (create_dirs platform (merged_of root fork_key))

  unfoldable pub fork_base : Text → Text → Option ℕ → Text → Command Unit
  fork_base base_key fork_key quota_bytes now = do
    map_err registry (open_registry_at platform root)
    base ← map_err (renamed base_key) (get_base platform base_key)
    ensure_absent fork_key
    create_fork_dirs fork_key
    mount_overlay base fork_key
    mode ← choose_quota_mode platform root (upper_of root fork_key) fork_key quota_bytes
    map_err registry
        (insert_fork platform fork_key (fork_entry root base_key fork_key quota_bytes mode now))
