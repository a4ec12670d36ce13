-- ===== src/Os.antt =====
-- What the guest commands use of the operating system: the file system and registry.json as a
-- state, /proc/mounts as a text, and the calls that can fail.
pub mod Paths
pub mod Mounts
pub mod Effects
use fastenv.Base.{
  ℕ, Text, Bool, true, false, not, List, [], ◌∷◌, ◌++◌, ◌==◌, nat_Eq, list_Eq, filter, any,
  contains, is_prefix, ◌≡◌, ◌&&◌, ◌||◌, if◌then◌else◌, Option, none, some, Result, ok, err, Io,
}
use fastenv.Schema.{RegistryDoc}
use fastenv.Os.Paths.{FilePath, inits}
use fastenv.Os.Mounts.{is_listed}

-- The calls whose failure the code sees.
pub data Call : Type 0 where
  create_dir_all : FilePath → Call
  remove_dir_all : FilePath → Call
  remove_dir : FilePath → Call
  create_file : FilePath → Call
  read_dir : FilePath → Call
  open_lock flock open_registry create_temp read_mounts write_stdout write_stderr : Call
  mount unmount open_upper set_project : FilePath → Call

pub record MountRequest : Type 0 where
  pub source : Text
  pub target : FilePath
  pub filesystem : Text
  pub flags : Text
  pub options : Text

pub record World : Type 0 where
  -- The contents of <root>/registry.json, if the file exists.
  pub registry_json : Option Text
  -- The directories and files that exist.
  pub paths : List FilePath
  -- The contents of /proc/mounts.
  pub proc_mounts : Text

-- What the code takes from serde_json, rustix and the kernel.
pub record Platform : Type 0 where
  pub print_doc : RegistryDoc → Text
  pub parse_doc : Text → Option RegistryDoc
  -- The new /proc/mounts, or `none` if the call fails.
  pub mount : MountRequest → Text → Option Text
  pub unmount : FilePath → Text → Option Text
  -- The calls that fail in this run, whatever they are given.
  pub fails : Call → Bool
  -- What a failed `remove_dir_all` leaves, and a failed `create_dir_all` makes.
  pub survives : FilePath → Bool
  -- Writing and renaming the new registry.json. A buffer that is full is written with its error
  -- told; the last one is written when the `BufWriter` is dropped, and its error is lost, so that
  -- the file may hold less than was printed.
  pub write_fails : Bool
  pub stored : Text → Text
  pub persist_fails : Bool

-- `path.exists()`
abbrev pub exists : World → FilePath → Bool
exists w p = contains w.paths p

module _ (os : Platform) where
  -- A call with no effect that the program can see but its failure.
  abbrev pub syscall : Call → Io World Call Unit
  syscall c w = if os.fails c then (err c, w) else (ok tt, w)

  unfoldable pub create_dirs : FilePath → Io World Call Unit
  create_dirs p w =
      if os.fails (create_dir_all p)
      then (err (create_dir_all p), record w { paths = filter os.survives (inits p) ++ w.paths })
      else (ok tt, record w { paths = inits p ++ w.paths })

  -- `remove_dir_all` refuses a path that is not there.
  unfoldable pub remove_tree : FilePath → Io World Call Unit
  remove_tree p w =
      if not (exists w p)
      then (err (remove_dir_all p), w)
      else if os.fails (remove_dir_all p)
      then (
        err (remove_dir_all p),
        record w { paths = filter (λ q. not (is_prefix p q) || os.survives q) w.paths },
      )
      else (ok tt, record w { paths = filter (λ q. not (is_prefix p q)) w.paths })

  -- `remove_dir` refuses a directory that is not empty.
  unfoldable pub remove_empty : FilePath → Io World Call Unit
  remove_empty p w =
      if os.fails (remove_dir p) || any (λ q. is_prefix p q && not (q == p)) w.paths
      then (err (remove_dir p), w)
      else (ok tt, record w { paths = filter (λ q. not (q == p)) w.paths })

  -- `is_mounted`: reading /proc/mounts can fail.
  unfoldable pub is_mounted : FilePath → Io World Call Bool
  is_mounted p w =
      if os.fails read_mounts then (err read_mounts, w) else (ok (is_listed p w.proc_mounts), w)

  abbrev pub remounted : Call → Option Text → Io World Call Unit
  remounted c none w = (err c, w)
  remounted c (some mounts) w = (ok tt, record w { proc_mounts = mounts })

  unfoldable pub sys_mount : MountRequest → Io World Call Unit
  sys_mount r w = remounted (mount r.target) (os.mount r w.proc_mounts) w

  unfoldable pub sys_unmount : FilePath → Io World Call Unit
  sys_unmount p w = remounted (unmount p) (os.unmount p w.proc_mounts) w
