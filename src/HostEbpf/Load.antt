-- ===== src/HostEbpf/Load.antt =====
-- src/host_ebpf.rs: loading, attaching and detaching a program. What `tc`, the kernel and the BPF
-- file system do with a request is a parameter. The verifier's log, which is part of an error's
-- text, is left out.
pub mod Steps
pub mod Attaching
pub mod Detaching
use fastenv.Base.{
  ℕ, ◌+◌, ◌-◌, ◌/◌, ◌%◌, ◌^◌, Text, text, Bytes, bytes, length, take, min, any, contains, is_prefix,
  Bool, true, false, not, ◌&&◌, ◌||◌, List, [], ◌∷◌, ◌++◌, filter, Option, none, some, Result, ok,
  err, Io, pure, fail, ◌>>=◌, ◌>>◌, ◌==◌, nat_Eq, list_Eq, if◌then◌else◌,
}
use fastenv.Os.Paths.{FilePath, join, components, display, inits}
use fastenv.HostEbpf.AttachPoint.{
  AttachPoint, tc, tracepoint, kprobe, raw, TcDirection, parse_attach_point, dir_str, tc_handle,
  parse_tc_handle,
}
use fastenv.HostEbpf.Elf.{
  ElfError, bpf_prog_type_unspecified, bpf_prog_type_kprobe, bpf_prog_type_sched_cls,
  bpf_prog_type_tracepoint,
}
use fastenv.HostEbpf.Object.{Program, load_bpf_object_file, infer_tc_section}

-- A request to load a program.
pub record BpfProgLoadAttr : Type 0 where
  pub prog_type : ℕ
  pub insn_cnt : ℕ
  pub insns : Bytes
  pub license : Text
  pub prog_name : Bytes

-- A classifier that is attached to a device, in a direction.
pub record TcFilter : Type 0 where
  pub device : Text
  pub direction : Text

pub record Kernel : Type 0 where
  -- The object files that exist.
  pub objects : FilePath → Option Bytes
  -- The programs that were loaded, the latest first.
  pub loaded : List BpfProgLoadAttr
  pub filters : List TcFilter
  -- What exists on the BPF file system: directories and pins.
  pub bpffs : List FilePath

pub data LoadError : Type 0 where
  object_not_found : FilePath → LoadError
  unreadable_object : LoadError
  bad_object : ElfError → LoadError
  load_rejected : LoadError
  tc_not_run : LoadError
  tc_filter_add_failed : Text → LoadError

-- What the code takes from the kernel, `tc` and the file system.
pub record Tools : Type 0 where
  pub unreadable : FilePath → Bool
  -- The descriptor of a new program, or `none` if it is rejected.
  pub bpf_prog_load : BpfProgLoadAttr → Option ℕ
  -- Whether `tc` with these arguments succeeds, and the filters after it; `none` if it cannot run.
  pub run_tc : List Text → List TcFilter → Option (Bool × List TcFilter)
  pub create_dir_fails : FilePath → Bool
  pub bpf_obj_pin_fails : FilePath → Bool
  pub remove_file_fails : FilePath → Bool

abbrev pub Kernels : Type 0 → Type 0
Kernels = Io Kernel LoadError

unfoldable pub prog_type_from_attach_point : AttachPoint → ℕ
prog_type_from_attach_point (tc device direction) = bpf_prog_type_sched_cls
prog_type_from_attach_point (tracepoint category event) = bpf_prog_type_tracepoint
prog_type_from_attach_point (kprobe function) = bpf_prog_type_kprobe
prog_type_from_attach_point (raw s) = bpf_prog_type_unspecified

-- At most 15 bytes of the name, and zeros.
abbrev sixteen_zeros : Bytes
sixteen_zeros = 0 ∷ 0 ∷ 0 ∷ 0 ∷ 0 ∷ 0 ∷ 0 ∷ 0 ∷ 0 ∷ 0 ∷ 0 ∷ 0 ∷ 0 ∷ 0 ∷ 0 ∷ 0 ∷ []

unfoldable pub prog_name_of : Text → Bytes
prog_name_of name = take 16 (take 15 (bytes name) ++ sixteen_zeros)

unfoldable pub load_attr : Program → Text → AttachPoint → BpfProgLoadAttr
load_attr p name attach_point = record {
  prog_type =
      if p.prog_type == bpf_prog_type_unspecified
      then prog_type_from_attach_point attach_point
      else p.prog_type;
  insn_cnt = length p.insns / 8 % 2 ^ 32;
  insns = p.insns;
  license = if contains p.license 0 then text "GPL" else p.license;
  prog_name = prog_name_of name;
}

abbrev pub parent : FilePath → FilePath
parent [] = []
parent (s ∷ []) = []
parent (s ∷ t ∷ p) = s ∷ parent (t ∷ p)

pub record LoadedEbpfPolicy : Type 0 where
  pub prog_fd : ℕ
  pub tc_handle : Option Text
  pub pin_path : Option FilePath
  pub loaded_at : Text

-- The text of a pin, as the policy's record holds it.
abbrev pub pin_text : Option FilePath → Option Text
pin_text none = none
pin_text (some p) = some (display p)

abbrev pub is_some : Option Bytes → Bool
is_some none = false
is_some (some b) = true

unfoldable pub bpf_pin_path : Text → Text → FilePath
bpf_pin_path project_id name =
    join (join (join (text "sys" ∷ text "fs" ∷ text "bpf" ∷ []) (text "fastenv")) project_id) name

-- The arguments of `tc`.
abbrev pub filter_add : FilePath → Text → TcDirection → Text → List Text
filter_add object_path device direction section_name =
    text "filter"
    ∷ text "add"
    ∷ text "dev"
    ∷ device
    ∷ dir_str direction
    ∷ text "bpf"
    ∷ text "da"
    ∷ text "obj"
    ∷ display object_path
    ∷ text "sec"
    ∷ section_name
    ∷ []

abbrev pub clsact_add : Text → List Text
clsact_add device = text "qdisc" ∷ text "add" ∷ text "dev" ∷ device ∷ text "clsact" ∷ []

abbrev pub filter_del : Text → Text → List Text
filter_del device direction = text "filter" ∷ text "del" ∷ text "dev" ∷ device ∷ direction ∷ []

-- `remove_dir` of a directory that is not empty does nothing.
abbrev pub remove_empty : FilePath → List FilePath → List FilePath
remove_empty dir paths =
    if any (λ q. is_prefix dir q && not (q == dir)) paths
    then paths
    else filter (λ q. not (q == dir)) paths

module _ (tools : Tools) where
  abbrev pub read_bytes : FilePath → Option Bytes → Option Bytes
  read_bytes p none = none
  read_bytes p (some b) = if tools.unreadable p then none else some b

  -- `fs::read`
  abbrev pub read_object : FilePath → Kernel → Option Bytes
  read_object p k = read_bytes p (k.objects p)

  abbrev pub parsed_object : Result ElfError Program → Result LoadError Program
  parsed_object (err e) = err (bad_object e)
  parsed_object (ok p) = ok p

  abbrev pub loaded_program : Option Bytes → Result LoadError Program
  loaded_program none = err unreadable_object
  loaded_program (some image) = parsed_object (load_bpf_object_file image)

  abbrev pub bpf_load : BpfProgLoadAttr → Option ℕ → Kernels ℕ
  bpf_load attr none k = (err load_rejected, k)
  bpf_load attr (some fd) k = (ok fd, record k { loaded = attr ∷ k.loaded })

  unfoldable pub load_bpf_prog_from_object : FilePath → Text → AttachPoint → Kernels ℕ
  load_bpf_prog_from_object object_path name attach_point = do
    p ← λ k. (loaded_program (read_object object_path k), k)
    bpf_load (load_attr p name attach_point) (tools.bpf_prog_load (load_attr p name attach_point))

  -- A run of `tc`: whether it succeeds.
  abbrev pub ran : Option (Bool × List TcFilter) → Kernels Bool
  ran none k = (err tc_not_run, k)
  ran (some (success, filters)) k = (ok success, record k { filters = filters })

  unfoldable pub tc_command : List Text → Kernels Bool
  tc_command args k = ran (tools.run_tc args k.filters) k

  -- A `clsact` that cannot be added is taken to be there.
  unfoldable pub tc_attach_bpf : FilePath → Text → TcDirection → Text → Kernels Text
  tc_attach_bpf object_path device direction section_name = do
    tc_command (clsact_add device)
    success ← tc_command (filter_add object_path device direction section_name)
    λ k.
        if success
        then (ok (tc_handle device direction), k)
        else (err (tc_filter_add_failed device), k)

  -- The result of an error is ignored by the only caller, so only the kernel is returned.
  abbrev pub tc_delete : Option (Text × Text) → Kernel → Kernel
  tc_delete none k = k
  tc_delete (some (device, direction)) k = (tc_command (filter_del device direction) k).1

  unfoldable pub tc_detach_bpf : Text → Kernel → Kernel
  tc_detach_bpf handle k = tc_delete (parse_tc_handle handle) k

  -- Whether the program was pinned. A path with a zero byte cannot be.
  unfoldable pub pin_bpf_prog : FilePath → Kernel → Bool × Kernel
  pin_bpf_prog pin_path k =
      let made = record k { bpffs = inits (parent pin_path) ++ k.bpffs } in
      if tools.create_dir_fails (parent pin_path)
      then (false, k)
      else if any (λ part. contains part 0) pin_path || tools.bpf_obj_pin_fails pin_path
      then (false, made)
      else (true, record made { bpffs = pin_path ∷ made.bpffs })

  unfoldable pub unpin_bpf_prog : FilePath → Kernel → Kernel
  unpin_bpf_prog pin_path k =
      if contains k.bpffs pin_path
      then (if tools.remove_file_fails pin_path then k else record k {
        bpffs = remove_empty (parent pin_path) (filter (λ q. not (q == pin_path)) k.bpffs);
      })
      else k

  abbrev pub tc_section : Result ElfError Text → Kernels Text
  tc_section (ok name) k = (ok name, k)
  tc_section (err e) k = (err (bad_object e), k)

  abbrev pub pinned_at : FilePath → Bool → Option FilePath
  pinned_at pin_path true = some pin_path
  pinned_at pin_path false = none

  module _ (now : Text) where
    abbrev pub with_handle : ℕ → Text → LoadedEbpfPolicy
    with_handle fd handle = record {
      prog_fd = fd;
      tc_handle = some handle;
      pin_path = none;
      loaded_at = now;
    }

    abbrev pub with_pin : ℕ → FilePath → Bool × Kernel → Result LoadError LoadedEbpfPolicy × Kernel
    with_pin fd pin_path (pinned, k) = (
      ok (record {
        prog_fd = fd;
        tc_handle = none;
        pin_path = pinned_at pin_path pinned;
        loaded_at = now;
      }),
      k,
    )

    unfoldable pub attach_loaded :
        Text → Text → FilePath → AttachPoint → ℕ → Kernels LoadedEbpfPolicy
    attach_loaded project_id name object_path (tc device direction) fd = do
      section_name ← λ k. tc_section (infer_tc_section (read_object object_path k)) k
      handle ← tc_attach_bpf object_path device direction section_name
      pure (with_handle fd handle)
    attach_loaded project_id name object_path (tracepoint category event) fd = λ k.
        with_pin fd (bpf_pin_path project_id name) (pin_bpf_prog (bpf_pin_path project_id name) k)
    attach_loaded project_id name object_path (kprobe function) fd = λ k.
        with_pin fd (bpf_pin_path project_id name) (pin_bpf_prog (bpf_pin_path project_id name) k)
    attach_loaded project_id name object_path (raw s) fd = λ k.
        with_pin fd (bpf_pin_path project_id name) (pin_bpf_prog (bpf_pin_path project_id name) k)

    unfoldable pub load_and_attach_host_ebpf :
        Text → Text → FilePath → Text → Kernels LoadedEbpfPolicy
    load_and_attach_host_ebpf project_id name object_path attach_point = do
      λ k.
          if is_some (k.objects object_path)
          then (ok tt, k)
          else (err (object_not_found object_path), k)
      fd ← load_bpf_prog_from_object object_path name (parse_attach_point attach_point)
      attach_loaded project_id name object_path (parse_attach_point attach_point) fd

  abbrev pub detach_handle : Option Text → Kernel → Kernel
  detach_handle none k = k
  detach_handle (some handle) k = tc_detach_bpf handle k

  abbrev pub detach_pin : Option Text → Kernel → Kernel
  detach_pin none k = k
  detach_pin (some pin_path) k = unpin_bpf_prog (components pin_path) k

  -- With the handle and the pin of the policy.
  unfoldable pub detach_host_ebpf : Option Text → Option Text → Kernel → Kernel
  detach_host_ebpf tc_attach_handle pin_path k =
      detach_pin pin_path (detach_handle tc_attach_handle k)
