-- ===== src/Tests/Hosts.antt =====
-- The theorems on the host control plane, at concrete inputs.
use fastenv.Host.Disk.{persist_record, create_dirs, load_project_vm}
use fastenv.Host.Firecracker.{
  boot_firecracker, check_kvm_access, boot_calls, firecracker_api_put, wait_late, split_curl_output,
  trim,
}
use fastenv.Host.Supervisor.{change_state, finish}
use fastenv.Base.{
  filter, not, ◌++◌, ◌>>=◌, Text, text, true, false, [], ◌∷◌, ◌++◌, none, some, Result, ok, err,
  Outcome, ◌≡◌, ◌↔◌, refl, ◌==◌, nat_Eq, list_Eq, list_eq, eq_iff, if◌then◌else◌, is_prefix,
  is_blank, is_whitespace, returned, raised,
}
use fastenv.Os.Paths.{FilePath}
use fastenv.Host.{
  Host, directory, file, running, NetworkPolicy, SecretLease, ArtifactRecord, ProjectVmSpec,
  ProjectVmRecord, VmError, killed_child,
}
use fastenv.Host.Disk.{vm_dir, state_path, validate_project_id, exists}
use fastenv.Host.Firecracker.{Environment, exited, alive, log, wait_for_socket}
use fastenv.Host.Firecracker.Waiting.{appears, wait_for_socket-ok, wait_for_socket-kill}
use fastenv.Host.Supervisor.{
  provision_project_vm, transition_vm_state, inject_secret, attach_network_policy, collect_artifact,
  destroy_project_vm, put_secret, new_record,
}
use fastenv.Host.Supervisor.Lifecycle.{
  SameRecords, Edited, IsWellFormed, inject_secret_effect, attach_network_policy_effect,
  collect_artifact_effect,
}
use fastenv.Host.Supervisor.Lifecycle.Moves.{Moved, transition_vm_state_effect}
use fastenv.Host.Supervisor.Lifecycle.Provision.{Provisioned, provision_project_vm_effect}
use fastenv.Host.Supervisor.Secrets.{secret_count, put_secret-count}
use fastenv.Host.Supervisor.Isolation.{
  IsProper, vm_dir-apart, Destroyed, OthersKept, destroy_project_vm_effect,
}
use fastenv.Tests.Codes.{vm}
use fastenv.Tests.Loads.{kernel}
use fastenv.Tests.Machines.{healthy_machine, machine-IsCodec}

abbrev pub root : FilePath
root = text "data" ∷ []

abbrev pub spec : ProjectVmSpec
spec = record {
  project_id = text "p";
  kernel_ref = none;
  seed_data_refs = [];
  network_policy = NetworkPolicy.none;
}

abbrev pub now : Text
now = text "t1"

-- A host with nothing on its disk.
abbrev empty_host : Host
empty_host = record { disk = λ p. none; events = []; kernel = kernel }

empty_host-IsWellFormed : IsWellFormed healthy_machine root empty_host
empty_host-IsWellFormed id r e = cc

p-IsProper : IsProper (text "p")
unfolding validate_project_id list_eq is_whitespace
p-IsProper = record { valid = refl; named = λ e. cc ((eq_iff (text "p") (text ".")).1 e) }

q-IsProper : IsProper (text "q")
unfolding validate_project_id list_eq is_whitespace
q-IsProper = record { valid = refl; named = λ e. cc ((eq_iff (text "q") (text ".")).1 e) }

abbrev environment : Environment
environment = record {
  binary_exists = true;
  kvm_exists = true;
  kvm_opens = true;
  rounds = (record { socket = false; child = alive }) ∷ [];
  last_round = record { socket = true; child = alive };
  answer = λ endpoint. some (text "\n204");
  pid = text "17";
  pid_writes = true;
  stop_rounds = true ∷ [];
  lingers = false;
}

provision_project_vm_effect_example :
    Outcome
      (λ r' h'. Provisioned healthy_machine root now spec r' empty_host h')
      (λ _ h'. SameRecords healthy_machine root empty_host h')
      (provision_project_vm healthy_machine root now spec empty_host)
provision_project_vm_effect_example =
    provision_project_vm_effect healthy_machine root (machine-IsCodec (λ c. false)) now spec
      empty_host empty_host-IsWellFormed

-- A host with the project "p".
abbrev pub with_p : Host
with_p = (provision_project_vm healthy_machine root now spec empty_host).1

pub with_p-IsWellFormed : IsWellFormed healthy_machine root with_p
with_p-IsWellFormed = well (
    provision_project_vm_effect healthy_machine root (machine-IsCodec (λ c. false)) now spec
      empty_host empty_host-IsWellFormed)
  where
    well :
        {r : Result VmError ProjectVmRecord × Host}
        → Outcome
            (λ r' h'. Provisioned healthy_machine root now spec r' empty_host h')
            (λ _ h'. SameRecords healthy_machine root empty_host h')
            r
        → IsWellFormed healthy_machine root r.1
    well (returned done) = done.well_formed
    well (raised same) = λ id r e. cc (same id, e)

transition_vm_state_effect_example :
    Outcome
      (λ r' h'. Moved healthy_machine root (text "p") running r' with_p h')
      (λ _ h'. SameRecords healthy_machine root with_p h')
      (transition_vm_state healthy_machine root now environment (text "p") running with_p)
transition_vm_state_effect_example =
    transition_vm_state_effect healthy_machine root environment (machine-IsCodec (λ c. false)) now
      (text "p") running with_p with_p-IsWellFormed

abbrev lease : SecretLease
lease = record {
  secret_name = text "k";
  scope = text "s";
  expires_at = text "t9";
  secret_value = text "v";
}

inject_secret_effect_example :
    Outcome
      (λ r' h'.
        Edited healthy_machine root now
          (λ r. record r { secrets = put_secret lease r.secrets })
          (text "p")
          r'
          with_p
          h')
      (λ _ h'. SameRecords healthy_machine root with_p h')
      (inject_secret healthy_machine root now (text "p") lease with_p)
inject_secret_effect_example =
    inject_secret_effect healthy_machine root (machine-IsCodec (λ c. false)) now (text "p") lease
      with_p with_p-IsWellFormed

attach_network_policy_effect_example :
    Outcome
      (λ r' h'.
        Edited healthy_machine root now
          (λ r. record r { network_policy = NetworkPolicy.allowlist [] })
          (text "p")
          r'
          with_p
          h')
      (λ _ h'. SameRecords healthy_machine root with_p h')
      (attach_network_policy healthy_machine root now
        (text "p")
        (NetworkPolicy.allowlist [])
        with_p)
attach_network_policy_effect_example =
    attach_network_policy_effect healthy_machine root (machine-IsCodec (λ c. false)) now (text "p")
      (NetworkPolicy.allowlist []) with_p with_p-IsWellFormed

abbrev artifact : ArtifactRecord
artifact = record { name = text "log"; kind = text "file"; path = text "x" ∷ []; digest = none }

collect_artifact_effect_example :
    Outcome
      (λ r' h'.
        (is_blank (text "log") ≡ false)
        × Edited healthy_machine root now
            (λ r. record r {
              artifacts = filter (λ a. not (a.name == text "log")) r.artifacts ++ artifact ∷ [];
            })
            (text "p")
            r'
            with_p
            h')
      (λ _ h'. SameRecords healthy_machine root with_p h')
      (collect_artifact healthy_machine root now (text "p") artifact with_p)
collect_artifact_effect_example =
    collect_artifact_effect healthy_machine root (machine-IsCodec (λ c. false)) now (text "p")
      artifact with_p with_p-IsWellFormed

-- A host with the directory of "p", and its state.json.
abbrev destroyable : Host
destroyable = record {
  disk = λ q.
      if state_path root (text "p") == q
      then some (file (vm.enc (new_record root spec now) [] ++ 10 ∷ []))
      else (if vm_dir root (text "p") == q then some directory else none);
  events = [];
  kernel = kernel;
}

dir_there : exists destroyable (vm_dir root (text "p")) ≡ true
unfolding vm_dir list_eq
dir_there = refl

destroy_project_vm_effect_example :
    Outcome
      (λ _ h'.
        Destroyed healthy_machine root (text "p") destroyable h'
        × OthersKept healthy_machine root (text "p") destroyable h')
      (λ _ h'. OthersKept healthy_machine root (text "p") destroyable h')
      (destroy_project_vm healthy_machine root now (text "p") destroyable)
destroy_project_vm_effect_example =
    destroy_project_vm_effect healthy_machine root (text "p") p-IsProper
      (machine-IsCodec (λ c. false)) now destroyable dir_there

vm_dir-apart_example :
    is_prefix (vm_dir root (text "p")) (state_path root (text "q")) ≡ text "p" == text "q"
vm_dir-apart_example = vm_dir-apart root (text "p") (text "q") p-IsProper q-IsProper

put_secret-count_example :
    secret_count (text "k") (put_secret lease (lease ∷ lease ∷ []))
    ≡ (if text "k" == text "k" then 1 else secret_count (text "k") (lease ∷ lease ∷ []))
put_secret-count_example = put_secret-count lease (text "k") (lease ∷ lease ∷ [])

wait_for_socket-ok_example :
    ((wait_for_socket healthy_machine environment (text "p") environment.rounds empty_host).0
      ≡ ok tt)
    ↔ (appears environment.rounds environment.last_round ≡ true)
wait_for_socket-ok_example =
    wait_for_socket-ok healthy_machine environment (text "p") environment.rounds empty_host

wait_for_socket-kill_example :
    (wait_for_socket healthy_machine environment
      (text "p")
      ((record { socket = false; child = exited }) ∷ [])
      empty_host).1
    ≡ (elim (wait_for_socket healthy_machine environment
        (text "p")
        ((record { socket = false; child = exited }) ∷ [])
        empty_host).0 [
          | err VmError.socket_timeout ↦ log (killed_child (text "p")) empty_host
          | _ ↦ empty_host
        ])
wait_for_socket-kill_example =
    wait_for_socket-kill healthy_machine environment (text "p")
      ((record { socket = false; child = exited }) ∷ []) empty_host

transition_runs :
    (transition_vm_state healthy_machine root now environment (text "p") running destroyable).0
    ≡ ok (record (new_record root spec now) { state = running })
unfolding transition_vm_state change_state boot_firecracker check_kvm_access boot_calls
    firecracker_api_put wait_for_socket wait_late finish persist_record create_dirs load_project_vm
    new_record vm_dir list_eq ◌>>=◌ split_curl_output trim
transition_runs = refl

-- The id `.` is valid, and its directory is the one of all projects.
dot_is_valid :
    (validate_project_id (text ".") ≡ ok tt) × (vm_dir root (text ".") ≡ root ++ text "vms" ∷ [])
unfolding validate_project_id vm_dir is_whitespace list_eq
dot_is_valid = (refl, refl)
