-- ===== src/GuestEbpf.antt =====
-- src/guest_ebpf.rs: the eBPF programs that observe a container inside the guest. The children are
-- the reader of object files, and attaching and detaching.
pub mod Object
pub mod Loader
