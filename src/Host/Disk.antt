-- ===== src/Host/Disk.antt =====
-- The private helpers of src/host_control_plane.rs: paths, the layout of a VM, and state.json.
pub mod Records
use fastenv.Base.{
  Text, text, Bool, true, false, List, [], ◌∷◌, ◌++◌, ◌==◌, nat_Eq, list_Eq, ◌||◌, has_char,
  has_dots, is_blank, is_prefix, if◌then◌else◌, Option, none, some, Result, ok, err, Io, ◌>>=◌,
  ◌>>◌, contains,
}
use fastenv.Os.Paths.{FilePath, join, inits}
use fastenv.HostEbpf.Load.{Tools}
use fastenv.Host.{
  Host, HostCall, create_dir_all, create_file, open_file, temp_file, persist_file, Node, directory,
  file, ProjectVmRecord, VmError, invalid_id, unreadable, io, Action,
}

-- What the code takes from the file system and serde_json.
pub record Machine : Type 0 where
  pub fails : HostCall → Bool
  pub print_record : ProjectVmRecord → Text
  pub parse_record : Text → Option ProjectVmRecord
  -- What a `create_dir_all` that fails has made, and a `remove_dir_all` that fails has left.
  pub made : FilePath → Bool
  pub survives : FilePath → Bool
  -- The eBPF tools.
  pub tools : Tools

unfoldable pub vm_dir : FilePath → Text → FilePath
unfolding join
vm_dir root project_id = join (join root (text "vms")) project_id

abbrev pub state_path : FilePath → Text → FilePath
state_path root project_id = vm_dir root project_id ++ text "state.json" ∷ []

unfoldable pub validate_project_id : Text → Result VmError Unit
unfolding has_dots has_char is_blank
validate_project_id project_id =
    if is_blank project_id
    then err invalid_id
    else if has_char b'/' project_id || (has_char 92 project_id || has_dots project_id)
    then err invalid_id
    else ok tt

abbrev pub or_directory : Option Node → Option Node
or_directory none = some directory
or_directory (some n) = some n

-- `path.exists()`
abbrev pub is_some : Option Node → Bool
is_some none = false
is_some (some n) = true

abbrev pub exists : Host → FilePath → Bool
exists h p = is_some (h.disk p)

-- A disk with other contents at one path.
abbrev pub write_at : FilePath → Option Node → Host → Host
write_at p n h = record h { disk = λ q. if p == q then n else h.disk q }

module _ (machine : Machine) where
  -- Directories are made where nothing is.
  unfoldable pub create_dirs : FilePath → Action Unit
  create_dirs p h =
      if machine.fails (create_dir_all p)
      then (
        err (io (create_dir_all p)),
        record h {
          disk = λ q.
              if contains (inits p) q
              then (if machine.made q then or_directory (h.disk q) else h.disk q)
              else h.disk q;
        },
      )
      else (
        ok tt,
        record h { disk = λ q. if contains (inits p) q then or_directory (h.disk q) else h.disk q },
      )

  unfoldable pub ensure_empty_file : FilePath → Action Unit
  ensure_empty_file p h =
      if exists h p
      then (ok tt, h)
      else if machine.fails (create_file p)
      then (err (io (create_file p)), h)
      else (ok tt, write_at p (some (file [])) h)

  unfoldable pub ensure_vm_layout : FilePath → Text → Action Unit
  ensure_vm_layout root project_id = do
    create_dirs (vm_dir root project_id ++ text "logs" ∷ [])
    create_dirs (vm_dir root project_id ++ text "artifacts" ∷ [])
    create_dirs (vm_dir root project_id ++ text "cache" ∷ [])

  abbrev pub parsed : Option ProjectVmRecord → Result VmError ProjectVmRecord
  parsed none = err unreadable
  parsed (some r) = ok r

  abbrev pub read_node : FilePath → Option Node → Result VmError ProjectVmRecord
  read_node p none = err (io (open_file p))
  read_node p (some directory) = err unreadable
  read_node p (some (file contents)) =
      if machine.fails (open_file p)
      then err (io (open_file p))
      else parsed (machine.parse_record contents)

  unfoldable pub load_project_vm : FilePath → Text → Action ProjectVmRecord
  load_project_vm root project_id h =
      (read_node (state_path root project_id) (h.disk (state_path root project_id)), h)

  abbrev pub replace_state : FilePath → ProjectVmRecord → Action Unit
  replace_state p r h =
      if machine.fails (temp_file p)
      then (err (io (temp_file p)), h)
      else if machine.fails (persist_file p)
      then (err (io (persist_file p)), h)
      else (ok tt, write_at p (some (file (machine.print_record r ++ 10 ∷ []))) h)

  -- The record is written where its own project id says.
  unfoldable pub persist_record : FilePath → ProjectVmRecord → Action Unit
  persist_record root r = do
    create_dirs (vm_dir root r.project_id)
    replace_state (state_path root r.project_id) r
