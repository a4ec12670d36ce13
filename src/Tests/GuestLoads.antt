-- ===== src/Tests/GuestLoads.antt =====
-- A guest's kernel with two free descriptors, and the theorems on its programs.
use fastenv.Base.{
  ℕ, text, utf8, List, [], ◌∷◌, contains, Bool, ◌>>=◌, true, false, Option, none, some, ok,
  some-injective, subst, ◌≡◌, refl, nat_Eq, list_Eq, list_eq,
}
use fastenv.Os.Paths.{FilePath, join}
use fastenv.HostEbpf.Object.{load_bpf_object_file}
use fastenv.GuestEbpf.Object.{load_bpf_bytes_from_elf, check_bytes, then_checked}
use fastenv.GuestEbpf.Object.SameReader.{
  insns_of, mapped, load_bpf_bytes_from_elf-load_bpf_object_file,
}
use fastenv.GuestEbpf.Loader.{
  GuestKernel, GuestTools, GuestEbpfPolicy, GuestEbpfLoader, byte_prefix, minimal_pass_program,
  guest_bpf_pin_path, load_guest_bpf_prog, load_tracepoint, load_cgroup_skb, pin_guest_bpf_prog,
  pin_tracepoint, attach, detach,
}
use fastenv.GuestEbpf.Loader.Detaching.{GivesFresh, detach-attach}
use fastenv.Tests.Ebpf.{object}

load_bpf_bytes_from_elf-load_bpf_object_file_example :
    then_checked (load_bpf_bytes_from_elf object) ≡ mapped insns_of (load_bpf_object_file object)
load_bpf_bytes_from_elf-load_bpf_object_file_example =
    load_bpf_bytes_from_elf-load_bpf_object_file object

-- The descriptor that these tests on 7 and 8 give is one that they have found free.
abbrev choice : Bool → Bool → Option ℕ
choice false b = some 7
choice true false = some 8
choice true true = none

choice_is_free :
    (fds : List ℕ) (fd : ℕ) (a b : Bool)
    → contains fds 7 ≡ a
    → contains fds 8 ≡ b
    → choice a b ≡ some fd
    → contains fds fd ≡ false
choice_is_free fds fd false b f g e = subst (λ n. contains fds n ≡ false) (some-injective e) f
choice_is_free fds fd true false f g e = subst (λ n. contains fds n ≡ false) (some-injective e) g
choice_is_free fds fd true true f g e = cc

abbrev pub guest_tools : GuestTools
guest_tools = record {
  unreadable = λ p. false;
  bpf_prog_load = λ attr fds. choice (contains fds 7) (contains fds 8);
  create_dir_fails = λ p. false;
  bpf_obj_pin_fails = λ p. false;
  remove_file_fails = λ p. false;
}

abbrev pub guest_kernel : GuestKernel
guest_kernel = record { objects = λ p. none; open_fds = 3 ∷ []; bpffs = [] }

pub guest_tools-GivesFresh : GivesFresh guest_tools
guest_tools-GivesFresh attr fds fd e =
    choice_is_free fds fd (contains fds 7) (contains fds 8) refl refl e

abbrev policy : GuestEbpfPolicy
policy = record {
  container_id = text "agent";
  object_path = none;
  tracepoint_attach = some (text "syscalls/sys_enter_openat");
  cgroup_path = some (text "c" ∷ []);
}

abbrev loader : GuestEbpfLoader
loader = record {
  container_id = text "agent";
  attached = true;
  tracepoint_fd = some 7;
  tracepoint_pin = some (guest_bpf_pin_path (text "agent") (text "tracepoint"));
  cgroup_skb_fd = some 8;
  attached_at = text "t";
}

abbrev attached_kernel : GuestKernel
attached_kernel = (attach guest_tools (text "t") policy guest_kernel).1

attaches : attach guest_tools (text "t") policy guest_kernel ≡ (ok loader, attached_kernel)
unfolding attach load_tracepoint load_cgroup_skb pin_tracepoint load_guest_bpf_prog
    pin_guest_bpf_prog byte_prefix utf8 minimal_pass_program check_bytes guest_bpf_pin_path join
    list_eq ◌>>=◌
attaches = refl

detach-attach_example :
    ((detach guest_tools loader attached_kernel).open_fds ≡ 3 ∷ [])
    × ((p : FilePath)
        → loader.tracepoint_pin ≡ some p
        → contains (detach guest_tools loader attached_kernel).bpffs p ≡ false)
detach-attach_example =
    detach-attach guest_tools guest_tools-GivesFresh (λ p. refl) (text "t") policy loader
      guest_kernel attached_kernel attaches
