-- ===== src/GuestEbpf/Loader.antt =====
-- src/guest_ebpf.rs: `GuestEbpfLoader`, which loads programs when a container starts and releases
-- them when it ends. A load that fails leaves the loader without a program; a panic is an error
-- here. What bpf(2) and the BPF file system do is a parameter.
pub mod Detaching
use fastenv.Base.{
  ℕ, zero, suc, ◌+◌, ◌-◌, ◌/◌, ◌%◌, ◌^◌, Text, text, Bytes, bytes, utf8, length, take, any,
  contains, is_prefix, Bool, true, false, not, ◌&&◌, ◌||◌, List, [], ◌∷◌, ◌++◌, filter, Option,
  none, some, Result, ok, err, Io, pure, ◌>>=◌, ◌>>◌, ◌==◌, nat_Eq, list_Eq, ltb, if◌then◌else◌,
}
use fastenv.Os.Paths.{FilePath, join, inits}
use fastenv.HostEbpf.Elf.{ElfError, panicked, bpf_prog_type_tracepoint}
use fastenv.HostEbpf.Load.{BpfProgLoadAttr, prog_name_of, remove_empty, parent}
use fastenv.GuestEbpf.Object.{load_bpf_bytes_from_elf, check_bytes, then_checked}

pub record GuestKernel : Type 0 where
  -- The object files that exist.
  pub objects : FilePath → Option Bytes
  -- The descriptors of programs that this process has open.
  pub open_fds : List ℕ
  -- What exists on the BPF file system: directories and pins.
  pub bpffs : List FilePath

pub record GuestTools : Type 0 where
  pub unreadable : FilePath → Bool
  -- The descriptor of a new program, beside those that are open, or `none` if it is rejected.
  pub bpf_prog_load : BpfProgLoadAttr → List ℕ → Option ℕ
  pub create_dir_fails : FilePath → Bool
  pub bpf_obj_pin_fails : FilePath → Bool
  pub remove_file_fails : FilePath → Bool

pub record GuestEbpfPolicy : Type 0 where
  pub container_id : Text
  pub object_path : Option FilePath
  pub tracepoint_attach : Option Text
  pub cgroup_path : Option FilePath

abbrev pub for_container : Text → GuestEbpfPolicy
for_container container_id = record {
  container_id = container_id;
  object_path = none;
  tracepoint_attach = none;
  cgroup_path = none;
}

pub record GuestEbpfLoader : Type 0 where
  pub container_id : Text
  pub attached : Bool
  pub tracepoint_fd : Option ℕ
  pub tracepoint_pin : Option FilePath
  pub cgroup_skb_fd : Option ℕ
  pub attached_at : Text

pub data Panic : Type 0 where
  panic : Panic

abbrev pub Guests : Type 0 → Type 0
Guests = Io GuestKernel Panic

abbrev pub bpf_prog_type_cgroup_skb : ℕ
bpf_prog_type_cgroup_skb = 4

unfoldable pub minimal_pass_program : Bytes
minimal_pass_program = 0xb7 ∷ 0 ∷ 0 ∷ 0 ∷ 0 ∷ 0 ∷ 0 ∷ 0 ∷ 0x95 ∷ 0 ∷ 0 ∷ 0 ∷ 0 ∷ 0 ∷ 0 ∷ 0 ∷ []

-- `&s[..s.len().min(n)]`, which panics inside of a character.
abbrev pub after_char : ℕ → Option Text → Option Text
after_char c none = none
after_char c (some t) = some (c ∷ t)

unfoldable pub byte_prefix : ℕ → Text → Option Text
byte_prefix n [] = some []
byte_prefix zero (c ∷ s) = some []
byte_prefix (suc n) (c ∷ s) =
    if ltb (suc n) (length (utf8 c))
    then none
    else after_char c (byte_prefix (suc n - length (utf8 c)) s)

unfoldable pub guest_bpf_pin_path : Text → Text → FilePath
guest_bpf_pin_path container_id name =
    join
      (join (join (text "sys" ∷ text "fs" ∷ text "bpf" ∷ []) (text "fastenv-guest")) container_id)
      name

abbrev pub fds_of : Option ℕ → List ℕ
fds_of none = []
fds_of (some fd) = fd ∷ []

abbrev pub is_loaded : Option ℕ → Bool
is_loaded none = false
is_loaded (some fd) = true

-- Why there is no program, or a panic in the reader.
pub data Unavailable : Type 0 where
  unreadable rejected : Unavailable
  bad_object : ElfError → Unavailable

abbrev pub is_panic : Unavailable → Bool
is_panic (bad_object panicked) = true
is_panic (bad_object e) = false
is_panic unreadable = false
is_panic rejected = false

module _ (tools : GuestTools) where
  abbrev pub read_bytes : FilePath → Option Bytes → Result Unavailable Bytes
  read_bytes p none = err unreadable
  read_bytes p (some b) = if tools.unreadable p then err unreadable else ok b

  abbrev pub of_reader : Result ElfError (Bytes × Text) → Result Unavailable (Bytes × Text)
  of_reader (err e) = err (bad_object e)
  of_reader (ok p) = ok p

  abbrev pub of_image : Result Unavailable Bytes → Result Unavailable (Bytes × Text)
  of_image (err e) = err e
  of_image (ok image) = of_reader (then_checked (load_bpf_bytes_from_elf image))

  -- The bytes and the license of the object, or of the program that does nothing.
  abbrev pub guest_program : Option FilePath → GuestKernel → Result Unavailable (Bytes × Text)
  guest_program none k = of_reader (check_bytes (minimal_pass_program, text "GPL"))
  guest_program (some p) k = of_image (read_bytes p (k.objects p))

  unfoldable pub guest_attr : Bytes × Text → Text → ℕ → BpfProgLoadAttr
  guest_attr (b, license) name prog_type = record {
    prog_type = prog_type;
    insn_cnt = length b / 8 % 2 ^ 32;
    insns = b;
    license = if contains license 0 then text "GPL" else license;
    prog_name = prog_name_of name;
  }

  abbrev pub opened : Option ℕ → Io GuestKernel Unavailable ℕ
  opened none k = (err rejected, k)
  opened (some fd) k = (ok fd, record k { open_fds = fd ∷ k.open_fds })

  unfoldable pub load_guest_bpf_prog : Option FilePath → Text → ℕ → Io GuestKernel Unavailable ℕ
  load_guest_bpf_prog object_path name prog_type = do
    p ← λ k. (guest_program object_path k, k)
    λ k. opened (tools.bpf_prog_load (guest_attr p name prog_type) k.open_fds) k

  -- A load that fails is only logged, but for a panic.
  abbrev pub degraded : Result Unavailable ℕ × GuestKernel → Result Panic (Option ℕ) × GuestKernel
  degraded (ok fd, k) = (ok (some fd), k)
  degraded (err e, k) = if is_panic e then (err panic, k) else (ok none, k)

  abbrev pub try_load : Option FilePath → Text → Option Text → ℕ → Guests (Option ℕ)
  try_load object_path prefix none prog_type k = (err panic, k)
  try_load object_path prefix (some id) prog_type k =
      degraded (load_guest_bpf_prog object_path (prefix ++ id) prog_type k)

  -- With a tracepoint the program for it, without one a probe of the kernel.
  unfoldable pub load_tracepoint : GuestEbpfPolicy → Option Text → Guests (Option ℕ)
  load_tracepoint policy (some tp) =
      try_load policy.object_path (text "gtp-") (byte_prefix 8 policy.container_id)
        bpf_prog_type_tracepoint
  load_tracepoint policy none =
      try_load policy.object_path (text "gprobe-") (byte_prefix 6 policy.container_id)
        bpf_prog_type_tracepoint

  unfoldable pub load_cgroup_skb : GuestEbpfPolicy → Option FilePath → Guests (Option ℕ)
  load_cgroup_skb policy none = pure none
  load_cgroup_skb policy (some path) =
      try_load policy.object_path (text "gskb-") (byte_prefix 8 policy.container_id)
        bpf_prog_type_cgroup_skb

  -- Whether the program was pinned.
  unfoldable pub pin_guest_bpf_prog : FilePath → GuestKernel → Bool × GuestKernel
  pin_guest_bpf_prog pin_path k =
      let made = record k { bpffs = inits (parent pin_path) ++ k.bpffs } in
      if tools.create_dir_fails (parent pin_path)
      then (false, k)
      else if any (λ part. contains part 0) pin_path || tools.bpf_obj_pin_fails pin_path
      then (false, made)
      else (true, record made { bpffs = pin_path ∷ made.bpffs })

  abbrev pub pin_of : FilePath → Bool × GuestKernel → Result Panic (Option FilePath) × GuestKernel
  pin_of pin_path (true, k) = (ok (some pin_path), k)
  pin_of pin_path (false, k) = (ok none, k)

  unfoldable pub pin_tracepoint : Text → Option ℕ → Guests (Option FilePath)
  pin_tracepoint container_id none = pure none
  pin_tracepoint container_id (some fd) = λ k.
      pin_of (guest_bpf_pin_path container_id (text "tracepoint"))
        (pin_guest_bpf_prog (guest_bpf_pin_path container_id (text "tracepoint")) k)

  unfoldable pub attach : Text → GuestEbpfPolicy → Guests GuestEbpfLoader
  attach now policy = do
    tracepoint_fd ← load_tracepoint policy policy.tracepoint_attach
    cgroup_skb_fd ← load_cgroup_skb policy policy.cgroup_path
    tracepoint_pin ← pin_tracepoint policy.container_id tracepoint_fd
    pure (record {
      container_id = policy.container_id;
      attached = is_loaded tracepoint_fd || is_loaded cgroup_skb_fd;
      tracepoint_fd = tracepoint_fd;
      tracepoint_pin = tracepoint_pin;
      cgroup_skb_fd = cgroup_skb_fd;
      attached_at = now;
    })

  abbrev pub close : Option ℕ → GuestKernel → GuestKernel
  close none k = k
  close (some fd) k = record k { open_fds = filter (λ other. not (other == fd)) k.open_fds }

  -- `remove_file` fails for a file that is not there.
  abbrev pub remove_pin : Option FilePath → GuestKernel → GuestKernel
  remove_pin none k = k
  remove_pin (some pin_path) k =
      if not (contains k.bpffs pin_path) || tools.remove_file_fails pin_path then k else record k {
        bpffs = remove_empty (parent pin_path) (filter (λ q. not (q == pin_path)) k.bpffs);
      }

  unfoldable pub detach : GuestEbpfLoader → GuestKernel → GuestKernel
  detach loader k =
      remove_pin loader.tracepoint_pin (close loader.cgroup_skb_fd (close loader.tracepoint_fd k))
