-- ===== src/Lib.antt =====
-- fastenv: the verification library of the workspace runtime.
--
-- fastenv keeps forks of base images for agents (guest side) and one Firecracker VM per project
-- (host side). The parts modelled here, and their files:
--
-- Base: shared helpers. Booleans and tests, lists over the native numbers, texts as lists of code
--   points, hash maps as association lists, results and actions, and `Outcome`, the condition that
--   an action leaves: one for a result and one for an error.
-- Schema, Registry (src/registry.rs): the document in registry.json and the accesses to it.
--   Registry/View reads the abstract maps off the file, Registry/Crud states each access as an
--   operation on them, Registry/Locking has the lock as a step relation of many processes.
-- Os: what the guest commands use of the system. A `World` is the registry file, the paths that
--   exist and the text of /proc/mounts; a `Platform` is what serde_json and the kernel do, with a
--   choice of calls that fail.
-- Guest/Fork (src/fork.rs), Guest/Discard (src/discard.rs), Guest/MountPath (src/mount_path.rs),
--   Guest/Quota (src/quota.rs), Guest/Usage (src/du.rs), Guest/Diff (src/diff.rs), Guest/Gc
--   (src/gc.rs): the guest commands, `fork_base`, `discard_fork`, `mount_path`, `unmount_fork`, `du_fork`,
--   `diff_fork` and `run_gc`, each as one action with all its error paths. They call the
--   registry, and `run_gc` calls `discard_fork`.
-- Host (src/host_control_plane.rs): the records of project VMs, Host/Disk the layout and state.json,
--   Host/Firecracker the boot and the shutdown, Host/Supervisor the operations of
--   `ProjectVmSupervisor`. Its state is a `Host`: the disk, the events sent to processes, and the
--   kernel of HostEbpf.
-- HostEbpf (src/host_ebpf.rs): HostEbpf/AttachPoint the attach points and the handles of `tc`,
--   HostEbpf/Elf and HostEbpf/Object the reader of object files, HostEbpf/Ring the consumer of the
--   perf ring buffer, HostEbpf/Load loading and detaching, on a `Kernel` that holds the loaded
--   programs, the filters and the pins. What `tc` and bpf(2) do with a request is a parameter.
-- GuestEbpf (src/guest_ebpf.rs): GuestEbpf/Object the guest's reader of object files, with the
--   readers of numbers from HostEbpf/Elf, and GuestEbpf/Loader `GuestEbpfLoader`, on a
--   `GuestKernel` that holds the open descriptors and the pins.
-- Exec (src/exec.rs and the crun backend of src/container_runtime.rs): Exec/Config the options and
--   `build_oci_config`, Exec/Run `run_exec`, on an `ExecHost` with the registry, the guest's
--   kernel, the bundles and the runs of crun. It uses the registry and `GuestEbpfLoader`. What
--   crun does with a bundle, and chrono, are parameters.
-- Tests: a platform and a machine with a concrete serializer, and the theorems at concrete inputs.
--
-- Only the loop over the ring buffer runs on fuel, the number of bytes between the two heads, which
-- is enough since a round passes a byte at least; the other loops run over lists or count down. The
-- loops that wait for a process see the rounds before their deadline as a list, which is finite
-- since the clock goes on, and one round after it. Numbers of 64 and 32 bits wrap as in a release
-- build.
--
-- The theorems assume, where they say so, of serde_json that it reads back what it printed, and of
-- the write of registry.json that its last buffer reaches the file, since an error there is lost.
-- Texts of errors and logs, the printing of JSON output and floating-point formatting are not
-- modelled; nor are the youki backend of src/container_runtime.rs, the command line and the
-- harnesses, and of src/host_ebpf.rs the set-up of the perf event and the wait for a new head.
pub mod Base
pub mod Schema
pub mod Os
pub mod Registry
pub mod Guest
pub mod Host
pub mod HostEbpf
pub mod GuestEbpf
pub mod Exec
pub mod Tests
