-- ===== src/Tests/Ebpf.antt =====
-- The theorems on host eBPF programs, at concrete inputs.
use fastenv.Base.{
  ltb, true, is_prefix, ℕ, ◌<◌, ◌^◌, text, Bytes, from_utf8, length, false, [], ◌∷◌, ◌++◌, some, ok,
  err, ◌≡◌, refl, nat_Eq, list_Eq, list_eq, has_char, split_once, arith,
}
use fastenv.HostEbpf.AttachPoint.{
  tracepoint, ingress, parse_attach_point, print_attach_point, Printable,
  parse_attach_point-print_attach_point, dir_str, tc_handle, parse_tc_handle, splitn_3,
}
use fastenv.HostEbpf.Elf.{
  bpf_prog_type_sched_cls, panicked, read_cstr, read_u16_le, read_u32_le, read_u64_le, from_le, get,
  elf_header, section_header, section_bytes, read_section_data, is_bpf_prog_section,
  infer_prog_type_from_section, until_zero, trim_end_zeros,
}
use fastenv.HostEbpf.Elf.Numbers.{to_le, read_u64_le-to_le}
use fastenv.HostEbpf.Object.{
  elf_magic, Program, load_bpf_object_file, infer_tc_section, check_program, scan_sections,
  scan_section, is_skipped, take_section, find_tc_section, tc_name, is_tc_section,
}
use fastenv.HostEbpf.Object.Loadable.{Loadable, load_bpf_object_file-Loadable}
use fastenv.HostEbpf.Object.TcSection.{First, infer_tc_section-First}

-- An ELF64 header of 64 bytes, with the table of three section headers after the strings and the
-- code.
abbrev zeros_8 : Bytes
zeros_8 = to_le 8 0

abbrev elf64_header : ℕ → ℕ → Bytes
elf64_header shoff shstrndx =
    (0x7f ∷ 69 ∷ 76 ∷ 70 ∷ 2 ∷ 1 ∷ 1 ∷ 0 ∷ [])
    ++ zeros_8
    ++ zeros_8
    ++ zeros_8
    ++ zeros_8
    ++ to_le 8 shoff
    ++ to_le 4 0
    ++ to_le 2 64
    ++ to_le 2 0
    ++ to_le 2 0
    ++ to_le 2 64
    ++ to_le 2 2
    ++ to_le 2 shstrndx

abbrev section_entry : ℕ → ℕ → ℕ → ℕ → Bytes
section_entry name kind off size =
    to_le 4 name
    ++ to_le 4 kind
    ++ zeros_8
    ++ zeros_8
    ++ to_le 8 off
    ++ to_le 8 size
    ++ zeros_8
    ++ zeros_8
    ++ zeros_8

-- The strings "tc" and "s" at offset 64, one instruction at offset 72.
abbrev strings : Bytes
strings = 116 ∷ 99 ∷ 0 ∷ 115 ∷ 0 ∷ 0 ∷ 0 ∷ 0 ∷ []

abbrev instruction : Bytes
instruction = 0x95 ∷ 0 ∷ 0 ∷ 0 ∷ 0 ∷ 0 ∷ 0 ∷ 0 ∷ []

abbrev pub object : Bytes
object =
    elf64_header 80 1 ++ strings ++ instruction ++ section_entry 0 1 72 8 ++ section_entry 3 3 64 8

abbrev program : Program
program = record { insns = instruction; license = text "GPL"; prog_type = 3 }

object_loads : load_bpf_object_file object ≡ ok program
unfolding load_bpf_object_file to_le get from_le read_u16_le read_u32_le read_u64_le elf_header
    section_header section_bytes read_section_data scan_sections scan_section is_skipped
    take_section read_cstr until_zero is_bpf_prog_section infer_prog_type_from_section check_program
    trim_end_zeros from_utf8 list_eq
object_loads = refl

load_bpf_object_file-Loadable_example : Loadable object program
load_bpf_object_file-Loadable_example = load_bpf_object_file-Loadable object program object_loads

-- A name that starts after the end of the strings makes the reader panic.
read_cstr_panics : read_cstr strings 9 ≡ err panicked
unfolding read_cstr
read_cstr_panics = refl

object_section : infer_tc_section (some object) ≡ ok (text "tc")
unfolding infer_tc_section to_le get from_le read_u16_le read_u32_le read_u64_le elf_header
    section_header read_section_data find_tc_section tc_name is_tc_section read_cstr until_zero
    is_bpf_prog_section from_utf8 list_eq
object_section = refl

object_names :
    read_section_data object
      (elf_header object).e_shoff
      (elf_header object).e_shentsize
      (elf_header object).e_shstrndx
    ≡ ok strings
unfolding to_le get from_le read_u16_le read_u32_le read_u64_le elf_header read_section_data
object_names = refl

object_is_elf : is_prefix elf_magic object ≡ true
unfolding to_le
object_is_elf = refl

object_is_long : ltb (length object) 64 ≡ false
unfolding to_le
object_is_long = refl

infer_tc_section-First_example :
    First object strings (elf_header object) 0 (elf_header object).e_shnum (text "tc")
    × (infer_prog_type_from_section (text "tc") ≡ bpf_prog_type_sched_cls)
infer_tc_section-First_example =
    infer_tc_section-First object strings (text "tc") object_is_long object_is_elf object_names
      object_section

parse_attach_point-print_attach_point_example :
    parse_attach_point (text "tracepoint:net/dev_xmit") ≡ tracepoint (text "net") (text "dev_xmit")
unfolding print_attach_point Printable has_char
parse_attach_point-print_attach_point_example =
    parse_attach_point-print_attach_point (tracepoint (text "net") (text "dev_xmit")) refl

no_colon : has_char b':' (text "tap0") ≡ false
unfolding has_char
no_colon = refl

-- A device with a colon, as an alias has, is not read back.
colon_lost :
    parse_tc_handle (tc_handle (text "eth0:1") ingress) ≡ some (text "eth0", text "1:ingress")
unfolding parse_tc_handle tc_handle dir_str splitn_3 split_once list_eq
colon_lost = refl

abbrev one_byte : Bytes
one_byte = 5 ∷ []

read_u64_le-to_le_example :
    (513 < 2 ^ 16 → read_u16_le (one_byte ++ (to_le 2 513 ++ one_byte)) (length one_byte) ≡ 513)
    × (513 < 2 ^ 32 → read_u32_le (one_byte ++ (to_le 4 513 ++ one_byte)) (length one_byte) ≡ 513)
    × (513 < 2 ^ 64 → read_u64_le (one_byte ++ (to_le 8 513 ++ one_byte)) (length one_byte) ≡ 513)
read_u64_le-to_le_example = read_u64_le-to_le 513 one_byte one_byte (omega arith)
