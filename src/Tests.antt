-- ===== src/Tests.antt =====
-- Tests of the model: a concrete platform and machine, and the theorems at concrete inputs.
mod Codes
mod Ebpf
mod Rings
mod GuestLoads
mod Loads
mod Machines
mod Guests
mod Hosts
mod Policies
mod Runs
