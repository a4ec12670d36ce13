-- ===== src/Host/Supervisor.antt =====
-- `ProjectVmSupervisor` of src/host_control_plane.rs. The time is an argument.
pub mod Isolation
pub mod Lifecycle
pub mod Secrets
pub mod Policies
pub mod Release
use fastenv.Base.{
  Text, text, list_eq, Bool, true, false, List, [], ◌∷◌, ◌++◌, filter, ◌==◌, nat_Eq, list_Eq, not,
  is_blank, is_prefix, ◌&&◌, if◌then◌else◌, Option, none, some, Result, ok, err, Io, rewrap, pure,
  ◌>>=◌, ◌>>◌,
}
use fastenv.Os.Paths.{FilePath}
use fastenv.HostEbpf.Load.{
  Kernels, LoadedEbpfPolicy, load_and_attach_host_ebpf, detach_host_ebpf, pin_text,
}
use fastenv.Host.{
  Host, HostCall, remove_dir_all, ebpf, VmState, provisioned, running, stopped, NetworkPolicy,
  SecretLease, ArtifactRecord, HostEbpfPolicy, ProjectVmSpec, ProjectVmRecord, VmError,
  already_running, still_running, not_running, empty_name, io, Action,
}
use fastenv.Host.Disk.{
  Machine, vm_dir, state_path, validate_project_id, exists, create_dirs, ensure_empty_file,
  ensure_vm_layout, load_project_vm, persist_record,
}
use fastenv.Host.Firecracker.{Environment, boot_firecracker, stop_firecracker}

abbrev pub under : FilePath → Text → Text → FilePath
under root project_id name = vm_dir root project_id ++ name ∷ []

-- The record of a new VM.
unfoldable pub new_record : FilePath → ProjectVmSpec → Text → ProjectVmRecord
new_record root spec now = record {
  project_id = spec.project_id;
  vm_dir = vm_dir root spec.project_id;
  firecracker_sock = under root spec.project_id (text "firecracker.sock");
  kernel_path = under root spec.project_id (text "kernel");
  rootfs_path = under root spec.project_id (text "rootfs.img");
  workspace_path = under root spec.project_id (text "workspace.img");
  cache_dir = under root spec.project_id (text "cache");
  logs_dir = under root spec.project_id (text "logs");
  artifacts_dir = under root spec.project_id (text "artifacts");
  state_path = state_path root spec.project_id;
  state = provisioned;
  kernel_ref = spec.kernel_ref;
  seed_data_refs = spec.seed_data_refs;
  network_policy = spec.network_policy;
  secrets = [];
  artifacts = [];
  host_ebpf_policy = none;
  created_at = now;
  updated_at = now;
}

-- `retain` what has another name, then `push`.
unfoldable pub put_secret : SecretLease → List SecretLease → List SecretLease
unfolding list_eq
put_secret lease secrets =
    filter (λ s. not (s.secret_name == lease.secret_name)) secrets ++ lease ∷ []

unfoldable pub put_artifact : ArtifactRecord → List ArtifactRecord → List ArtifactRecord
unfolding list_eq
put_artifact artifact artifacts =
    filter (λ a. not (a.name == artifact.name)) artifacts ++ artifact ∷ []

abbrev pub detach_host_ebpf_if_loaded : Machine → Option HostEbpfPolicy → Host → Host
detach_host_ebpf_if_loaded machine none h = h
detach_host_ebpf_if_loaded machine (some policy) h = record h {
  kernel = detach_host_ebpf machine.tools policy.tc_attach_handle policy.pin_path h.kernel;
}

-- The policy with what `load_and_attach_host_ebpf` returned.
abbrev pub with_loaded : HostEbpfPolicy → LoadedEbpfPolicy → HostEbpfPolicy
with_loaded policy loaded = record policy {
  tc_attach_handle = loaded.tc_handle;
  pin_path = pin_text loaded.pin_path;
  loaded_at = some loaded.loaded_at;
}

-- A step that only changes the kernel.
abbrev pub in_kernel : Kernels LoadedEbpfPolicy → Action LoadedEbpfPolicy
in_kernel m h = let (r, k) = m h.kernel in (rewrap ebpf r, record h { kernel = k })

abbrev pub updated : ProjectVmSpec → Text → ProjectVmRecord → ProjectVmRecord
updated spec now r = record r {
  kernel_ref = spec.kernel_ref;
  seed_data_refs = spec.seed_data_refs;
  network_policy = spec.network_policy;
  updated_at = now;
}

module _ (machine : Machine) (root : FilePath) (now : Text) where
  unfoldable pub create_project_vm : ProjectVmSpec → Action ProjectVmRecord
  create_project_vm spec = do
    create_dirs machine (under root spec.project_id (text "logs"))
    create_dirs machine (under root spec.project_id (text "artifacts"))
    create_dirs machine (under root spec.project_id (text "cache"))
    ensure_empty_file machine (under root spec.project_id (text "kernel"))
    ensure_empty_file machine (under root spec.project_id (text "rootfs.img"))
    ensure_empty_file machine (under root spec.project_id (text "workspace.img"))
    pure (new_record root spec now)

  unfoldable pub load_or_create : ProjectVmSpec → Action ProjectVmRecord
  load_or_create spec h =
      if exists h (state_path root spec.project_id)
      then load_project_vm machine root spec.project_id h
      else create_project_vm spec h

  -- Every operation ends with this: the time is set, and the record is written and returned.
  unfoldable pub finish : ProjectVmRecord → Action ProjectVmRecord
  finish r = do
    persist_record machine root (record r { updated_at = now })
    pure (record r { updated_at = now })

  unfoldable pub provision_project_vm : ProjectVmSpec → Action ProjectVmRecord
  provision_project_vm spec = do
    λ h. (validate_project_id spec.project_id, h)
    ensure_vm_layout machine root spec.project_id
    r ← load_or_create spec
    finish (updated spec now r)

  unfoldable pub get_project_vm : Text → Action ProjectVmRecord
  get_project_vm project_id = load_project_vm machine root project_id

  unfoldable pub load_host_ebpf_policy : Text → HostEbpfPolicy → Action ProjectVmRecord
  load_host_ebpf_policy project_id policy = do
    r ← load_project_vm machine root project_id
    loaded ← in_kernel (
        load_and_attach_host_ebpf machine.tools now project_id policy.name policy.object_path
          policy.attach_point)
    finish (record r { host_ebpf_policy = some (with_loaded policy loaded) })

  abbrev pub stop_running : Environment → Text → ProjectVmRecord → Action ProjectVmRecord
  stop_running env project_id r h =
      let done =
        stop_firecracker machine env r (detach_host_ebpf_if_loaded machine r.host_ebpf_policy h) in
      finish done.0 done.1

  -- The move from one state to another.
  unfoldable pub change_state :
      Environment → Text → ProjectVmRecord → VmState → VmState → Action ProjectVmRecord
  change_state env project_id r running running h = (err already_running, h)
  change_state env project_id r provisioned running h =
      (boot_firecracker machine env r >>= finish) h
  change_state env project_id r stopped running h = (boot_firecracker machine env r >>= finish) h
  change_state env project_id r stopped stopped h = (ok r, h)
  change_state env project_id r provisioned stopped h = (err (not_running provisioned), h)
  change_state env project_id r running stopped h = stop_running env project_id r h
  change_state env project_id r provisioned provisioned h =
      finish (record r { state = provisioned }) h
  change_state env project_id r running provisioned h = finish (record r { state = provisioned }) h
  change_state env project_id r stopped provisioned h = finish (record r { state = provisioned }) h

  unfoldable pub transition_vm_state : Environment → Text → VmState → Action ProjectVmRecord
  transition_vm_state env project_id state = do
    r ← load_project_vm machine root project_id
    change_state env project_id r r.state state

  unfoldable pub attach_network_policy : Text → NetworkPolicy → Action ProjectVmRecord
  attach_network_policy project_id policy = do
    r ← load_project_vm machine root project_id
    finish (record r { network_policy = policy })

  unfoldable pub inject_secret : Text → SecretLease → Action ProjectVmRecord
  inject_secret project_id lease = do
    r ← load_project_vm machine root project_id
    finish (record r { secrets = put_secret lease r.secrets })

  unfoldable pub collect_artifact : Text → ArtifactRecord → Action ProjectVmRecord
  collect_artifact project_id artifact = do
    λ h. if is_blank artifact.name then (err empty_name, h) else (ok tt, h)
    r ← load_project_vm machine root project_id
    finish (record r { artifacts = put_artifact artifact r.artifacts })

  -- Nothing is removed of a VM that is running.
  abbrev pub remove_vm_dir : FilePath → Action Unit
  remove_vm_dir dir h =
      if exists h dir
      then (if machine.fails (remove_dir_all dir)
          then (
            err (io (remove_dir_all dir)),
            record h {
              disk = λ q. if is_prefix dir q && not (machine.survives q) then none else h.disk q;
            },
          )
          else (ok tt, record h { disk = λ q. if is_prefix dir q then none else h.disk q }))
      else (ok tt, h)

  unfoldable pub destroy_stopped : Text → ProjectVmRecord → VmState → Action Unit
  destroy_stopped project_id r running h = (err still_running, h)
  destroy_stopped project_id r provisioned h =
      remove_vm_dir (vm_dir root project_id)
        (detach_host_ebpf_if_loaded machine r.host_ebpf_policy h)
  destroy_stopped project_id r stopped h =
      remove_vm_dir (vm_dir root project_id)
        (detach_host_ebpf_if_loaded machine r.host_ebpf_policy h)

  unfoldable pub destroy_project_vm : Text → Action Unit
  destroy_project_vm project_id = do
    r ← load_project_vm machine root project_id
    destroy_stopped project_id r r.state
