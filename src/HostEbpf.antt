-- ===== src/HostEbpf.antt =====
-- src/host_ebpf.rs: eBPF programs that the host loads for a VM. The children are the attach points
-- and `tc` handles, the reader of object files, the perf ring buffer, and loading and detaching.
pub mod AttachPoint
pub mod Elf
pub mod Object
pub mod Ring
pub mod Load
