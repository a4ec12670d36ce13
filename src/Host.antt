-- ===== src/Host.antt =====
-- src/host_control_plane.rs: the data of the host control plane, and the host as its state.
pub mod Disk
pub mod Firecracker
pub mod Supervisor
use fastenv.Base.{ℕ, Text, List, Option, Io, Bool}
use fastenv.Os.Paths.{FilePath}
use fastenv.HostEbpf.Load.{Kernel, LoadError}

pub data VmState : Type 0 where
  provisioned running stopped : VmState

pub data NetworkPolicy : Type 0 where
  none : NetworkPolicy
  package_mirror_only : Option Text → NetworkPolicy
  allowlist audited_egress : List Text → NetworkPolicy

pub record SecretLease : Type 0 where
  pub secret_name : Text
  pub scope : Text
  pub expires_at : Text
  pub secret_value : Text

pub record ArtifactRecord : Type 0 where
  pub name : Text
  pub kind : Text
  pub path : FilePath
  pub digest : Option Text

pub record HostEbpfPolicy : Type 0 where
  pub name : Text
  pub attach_point : Text
  pub object_path : FilePath
  pub tc_attach_handle : Option Text
  pub pin_path : Option Text
  pub loaded_at : Option Text

pub record ProjectVmSpec : Type 0 where
  pub project_id : Text
  pub kernel_ref : Option Text
  pub seed_data_refs : List Text
  pub network_policy : NetworkPolicy

pub record ProjectVmRecord : Type 0 where
  pub project_id : Text
  pub vm_dir : FilePath
  pub firecracker_sock : FilePath
  pub kernel_path : FilePath
  pub rootfs_path : FilePath
  pub workspace_path : FilePath
  pub cache_dir : FilePath
  pub logs_dir : FilePath
  pub artifacts_dir : FilePath
  pub state_path : FilePath
  pub state : VmState
  pub kernel_ref : Option Text
  pub seed_data_refs : List Text
  pub network_policy : NetworkPolicy
  pub secrets : List SecretLease
  pub artifacts : List ArtifactRecord
  pub host_ebpf_policy : Option HostEbpfPolicy
  pub created_at : Text
  pub updated_at : Text

pub data Node : Type 0 where
  directory : Node
  file : Text → Node

-- What the supervisor asks of the world outside the disk, in the order of the calls.
pub data Event : Type 0 where
  spawned : Text → FilePath → Event
  api_put : FilePath → Text → Event
  killed_child : Text → Event
  killed_pid : ℕ → Event

pub record Host : Type 0 where
  pub disk : FilePath → Option Node
  pub events : List Event
  pub kernel : Kernel

-- The calls whose failure the code sees.
pub data HostCall : Type 0 where
  create_dir_all create_file open_file temp_file persist_file remove_dir_all remove_file :
      FilePath → HostCall
  spawn try_wait : HostCall
  curl : Text → HostCall

pub data VmError : Type 0 where
  already_running still_running binary_not_found kvm_unavailable process_exited socket_timeout :
      VmError
  not_running : VmState → VmError
  api_failed : Text → VmError
  invalid_id empty_name unreadable : VmError
  io : HostCall → VmError
  ebpf : LoadError → VmError

abbrev pub Action : Type 0 → Type 0
Action = Io Host VmError
