-- ===== src/Guest/Quota.antt =====
-- src/quota.rs: which mount covers a path and whether it has `prjquota`, the project id of a fork,
-- and the choice between hard and soft quotas. `parse_quota_size` is not here: it computes with
-- floating-point numbers.
pub mod Ids
pub mod Longest
use Prim.Native.Nat.{bit_xor, max}
use fastenv.Base.{
  ◌&&◌, ℕ, ◌+◌, ◌*◌, ◌/◌, ◌%◌, ◌^◌, ◌-◌, Text, text, split, Bool, true, false, utf8, bytes, List,
  [], ◌∷◌, ◌++◌, ◌==◌, nat_Eq, list_Eq, list_eq, any, is_prefix, if◌then◌else◌, ltb, leb, Option,
  none, some, Result, ok, err, ◌>>=◌, ◌>>◌,
}
use mathlib.Core.List.{flat_map}
use fastenv.Schema.{QuotaMode, soft, hard}
use fastenv.Os.{World, Platform, syscall, open_upper, set_project, read_mounts}
use fastenv.Os.Paths.{FilePath, components, is_absolute}
use fastenv.Os.Mounts.{lines, split_whitespace}
use fastenv.Guest.{Command, run}

unfoldable pub byte_len : Text → ℕ
unfolding utf8
byte_len [] = 0
byte_len (c ∷ s) =
    (if ltb c 0x80 then 1 else if ltb c 0x800 then 2 else if ltb c 0x10000 then 3 else 4)
    + byte_len s

-- The second and the fourth field of a line of /proc/mounts.
abbrev pub mount_fields : List Text → Option (Text × Text)
mount_fields (device ∷ mountpoint ∷ fstype ∷ options ∷ rest) = some (mountpoint, options)
mount_fields (device ∷ mountpoint ∷ fstype ∷ []) = none
mount_fields (device ∷ mountpoint ∷ []) = none
mount_fields (device ∷ []) = none
mount_fields [] = none

-- The longest mount point so far that covers the path, and whether it has `prjquota`.
pub record Best : Type 0 where
  pub best_len : ℕ
  pub best_mount : Option Bool

abbrev pub has_option : Text → Bool
has_option options = any (λ opt. opt == text "prjquota") (split b',' options)

-- `root.starts_with(mountpoint)`: the root is absolute.
abbrev pub covers : FilePath → Text → Bool
covers root mountpoint = is_absolute mountpoint && is_prefix (components mountpoint) root

-- One round of the loop over the lines.
unfoldable pub consider : FilePath → Best → Option (Text × Text) → Best
consider root best none = best
consider root best (some (mountpoint, options)) =
    if covers root mountpoint
    then (if leb best.best_len (byte_len mountpoint)
        then record { best_len = byte_len mountpoint; best_mount = some (has_option options) }
        else best)
    else best

unfoldable pub scan_mounts : FilePath → Best → List Text → Best
unfolding consider
scan_mounts root best [] = best
scan_mounts root best (line ∷ rest) =
    scan_mounts root (consider root best (mount_fields (split_whitespace line))) rest

abbrev pub unwrap_or_false : Option Bool → Bool
unwrap_or_false none = false
unwrap_or_false (some b) = b

unfoldable pub parse_proc_mounts_has_prjquota : Text → FilePath → Bool
unfolding scan_mounts
parse_proc_mounts_has_prjquota proc_mounts root =
    unwrap_or_false
      (scan_mounts root (record { best_len = 0; best_mount = none }) (lines proc_mounts)).best_mount

-- FNV-1a on 32 bits.
unfoldable pub fnv1a : ℕ → List ℕ → ℕ
fnv1a hash [] = hash
fnv1a hash (byte ∷ rest) = fnv1a (bit_xor hash byte * 16777619 % 2 ^ 32) rest

unfoldable pub alloc_project_id : Text → ℕ
unfolding fnv1a bytes
alloc_project_id fork_key = max (fnv1a 2166136261 (bytes fork_key)) 2

module _ (platform : Platform) where
  -- A file that cannot be read counts as no `prjquota`.
  unfoldable pub has_prjquota : FilePath → World → Bool
  has_prjquota root w =
      if platform.fails read_mounts
      then false
      else parse_proc_mounts_has_prjquota w.proc_mounts root

  -- The ioctl is given the project id alone: `_quota_bytes` is not used. Its failure is no error.
  unfoldable pub assign_project_quota : FilePath → ℕ → ℕ → Command QuotaMode
  assign_project_quota upper_dir project_id quota_bytes = do
    run (syscall platform (open_upper upper_dir))
    λ w. (ok (if platform.fails (set_project upper_dir) then soft else hard), w)

  -- Step 5 of `fork_base`.
  unfoldable pub choose_quota_mode : FilePath → FilePath → Text → Option ℕ → Command QuotaMode
  unfolding assign_project_quota has_prjquota
  choose_quota_mode root upper_path fork_key none w = (ok soft, w)
  choose_quota_mode root upper_path fork_key (some quota) w =
      if has_prjquota root w
      then assign_project_quota upper_path (alloc_project_id fork_key) quota w
      else (ok soft, w)
