-- ===== src/HostEbpf/Elf.antt =====
-- src/host_ebpf.rs: the reader of eBPF object files. Bytes are numbers; sums of offsets wrap, as
-- in a release build; a slice that starts after the end of its data panics.
pub mod Numbers
use fastenv.Base.{
  ℕ, zero, suc, ◌+◌, ◌-◌, ◌*◌, ◌^◌, ◌%◌, Text, text, Bytes, from_utf8, length, take, drop,
  is_prefix, any, Bool, true, false, ◌&&◌, ◌||◌, not, List, [], ◌∷◌, Option, none, some, Result, ok,
  err, ◌==◌, nat_Eq, list_Eq, ltb, leb, if◌then◌else◌, unwrap_or,
}

pub data ElfError : Type 0 where
  too_small not_elf not_64_bit not_little_endian no_section_headers : ElfError
  section_out_of_bounds no_program empty_program : ElfError
  misaligned too_large : ℕ → ElfError
  panicked : ElfError

abbrev pub add_usize : ℕ → ℕ → ℕ
add_usize a b = (a + b) % 2 ^ 64

-- `data.get(start..end)`
unfoldable pub get : Bytes → ℕ → ℕ → Option Bytes
get image start end =
    if leb start end && leb end (length image)
    then some (take (end - start) (drop start image))
    else none

unfoldable pub from_le : Bytes → ℕ
from_le [] = 0
from_le (b ∷ s) = b + 256 * from_le s

abbrev pub le_or_zero : Option Bytes → ℕ
le_or_zero none = 0
le_or_zero (some b) = from_le b

abbrev pub read_le : ℕ → Bytes → ℕ → ℕ
read_le width image off = le_or_zero (get image off (add_usize off width))

unfoldable pub read_u16_le : Bytes → ℕ → ℕ
read_u16_le = read_le 2

unfoldable pub read_u32_le : Bytes → ℕ → ℕ
read_u32_le = read_le 4

unfoldable pub read_u64_le : Bytes → ℕ → ℕ
read_u64_le = read_le 8

-- `&data[a..b]` panics where `get` gives nothing.
abbrev ok_or : {A : Type 0} → ElfError → Option A → Result ElfError A
ok_or e none = err e
ok_or e (some a) = ok a

unfoldable pub read_section_data : Bytes → ℕ → ℕ → ℕ → Result ElfError Bytes
read_section_data image e_shoff e_shentsize idx =
    let sh_off_hdr = add_usize e_shoff (idx * e_shentsize) in
    let sh_off = read_u64_le image (add_usize sh_off_hdr 24) in
    let sh_size = read_u64_le image (add_usize sh_off_hdr 32) in
    ok_or section_out_of_bounds (get image sh_off (add_usize sh_off sh_size))

-- The bytes before the first zero.
unfoldable pub until_zero : Bytes → Bytes
until_zero [] = []
until_zero (b ∷ s) = if b == 0 then [] else b ∷ until_zero s

unfoldable pub read_cstr : Bytes → ℕ → Result ElfError Text
read_cstr image off =
    if ltb (length image) off
    then err panicked
    else ok (unwrap_or [] (from_utf8 (until_zero (drop off image))))

unfoldable pub is_bpf_prog_section : Text → Bool
is_bpf_prog_section name =
    any (λ known. name == known)
      (text "classifier"
        ∷ text ".text"
        ∷ text "action"
        ∷ text "xdp"
        ∷ text "kprobe"
        ∷ text "kretprobe"
        ∷ text "tracepoint"
        ∷ text "raw_tracepoint"
        ∷ text "sockops"
        ∷ text "cgroup/connect4"
        ∷ text "cgroup/connect6"
        ∷ [])
    || is_prefix (text "tc") name
    || is_prefix (text "tracepoint/") name
    || is_prefix (text "kprobe/") name
    || is_prefix (text "kretprobe/") name
    || is_prefix (text "xdp") name
    || is_prefix (text "cgroup/") name
    || is_prefix (text "sk_msg") name
    || is_prefix (text "sockops") name

abbrev pub bpf_prog_type_unspecified : ℕ
bpf_prog_type_unspecified = 0

abbrev pub bpf_prog_type_kprobe : ℕ
bpf_prog_type_kprobe = 2

abbrev pub bpf_prog_type_sched_cls : ℕ
bpf_prog_type_sched_cls = 3

abbrev pub bpf_prog_type_tracepoint : ℕ
bpf_prog_type_tracepoint = 5

unfoldable pub infer_prog_type_from_section : Text → ℕ
infer_prog_type_from_section name =
    if is_prefix (text "tc") name || name == text "classifier" || name == text "action"
    then bpf_prog_type_sched_cls
    else if is_prefix (text "tracepoint/") name || name == text "tracepoint"
    then bpf_prog_type_tracepoint
    else if is_prefix (text "kprobe/") name
        || is_prefix (text "kretprobe/") name
        || name == text "kprobe"
    then bpf_prog_type_kprobe
    else bpf_prog_type_unspecified

-- `s.trim_end_matches('\0')`
unfoldable pub trim_end_zeros : Text → Text
trim_end_zeros [] = []
trim_end_zeros (c ∷ s) =
    let rest = trim_end_zeros s in if c == 0 && rest == [] then [] else c ∷ rest

-- The fields of the ELF header, and those of a section header.
pub record ElfHeader : Type 0 where
  pub e_shoff : ℕ
  pub e_shentsize : ℕ
  pub e_shnum : ℕ
  pub e_shstrndx : ℕ

unfoldable pub elf_header : Bytes → ElfHeader
elf_header image = record {
  e_shoff = read_u64_le image 40;
  e_shentsize = read_u16_le image 58;
  e_shnum = read_u16_le image 60;
  e_shstrndx = read_u16_le image 62;
}

pub record SectionHeader : Type 0 where
  pub sh_name_idx : ℕ
  pub sh_type : ℕ
  pub sh_addr : ℕ
  pub sh_off : ℕ
  pub sh_size : ℕ

unfoldable pub section_header : Bytes → ℕ → SectionHeader
section_header image sh_offset = record {
  sh_name_idx = read_u32_le image sh_offset;
  sh_type = read_u32_le image (add_usize sh_offset 4);
  sh_addr = read_u64_le image (add_usize sh_offset 16);
  sh_off = read_u64_le image (add_usize sh_offset 24);
  sh_size = read_u64_le image (add_usize sh_offset 32);
}

-- `data.get(sh_off..sh_off + sh_size)`
unfoldable pub section_bytes : Bytes → SectionHeader → Option Bytes
section_bytes image h = get image h.sh_off (add_usize h.sh_off h.sh_size)
