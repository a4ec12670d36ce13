-- ===== src/HostEbpf/Object.antt =====
-- src/host_ebpf.rs: the scan of an object file for its program, and for the section of a `tc`
-- program.
pub mod Scanning
pub mod Loadable
pub mod TcSection
use fastenv.Base.{
  ℕ, zero, suc, ◌+◌, ◌*◌, ◌%◌, Text, text, Bytes, from_utf8, length, get_elem?, is_prefix, Bool,
  true, false, ◌&&◌, ◌||◌, not, List, [], ◌∷◌, Option, none, some, Result, ok, err, ◌==◌, nat_Eq,
  list_Eq, ltb, if◌then◌else◌, unwrap_or,
}
use fastenv.HostEbpf.Elf.{
  ElfError, too_small, not_elf, not_64_bit, not_little_endian, no_section_headers,
  section_out_of_bounds, no_program, empty_program, misaligned, too_large, panicked, add_usize,
  ElfHeader, elf_header, SectionHeader, section_header, section_bytes, read_section_data, read_cstr,
  is_bpf_prog_section, infer_prog_type_from_section, trim_end_zeros, bpf_prog_type_unspecified,
}

abbrev pub bpf_max_prog_size : ℕ
bpf_max_prog_size = 4 * 1024 * 1024

-- The variables of the scan.
pub record Scan : Type 0 where
  pub prog_bytes : Option Bytes
  pub license : Text
  pub prog_type_hint : ℕ

-- Whether the scan passes over a section whatever its name.
unfoldable pub is_skipped : SectionHeader → Bool
is_skipped h = not (h.sh_type == 1) || not (h.sh_addr == 0) || h.sh_off == 0 || h.sh_size == 0

abbrev pub is_none : Option Bytes → Bool
is_none none = true
is_none (some b) = false

abbrev pub from_utf8_or_gpl : Bytes → Text
from_utf8_or_gpl b = unwrap_or (text "GPL") (from_utf8 b)

-- The body of the loop for a section with this name.
unfoldable pub take_section : Bytes → SectionHeader → Text → Scan → Scan
take_section image h name scan =
    if name == text "license"
    then record scan {
      license = trim_end_zeros (from_utf8_or_gpl (unwrap_or [] (section_bytes image h)));
    }
    else if is_none scan.prog_bytes && is_bpf_prog_section name
    then record scan {
      prog_bytes = section_bytes image h;
      prog_type_hint = infer_prog_type_from_section name;
    }
    else scan

abbrev pub with_name : {A : Type 0} → (Text → A) → Result ElfError Text → Result ElfError A
with_name f (ok name) = ok (f name)
with_name f (err e) = err e

unfoldable pub scan_section : Bytes → Bytes → SectionHeader → Scan → Result ElfError Scan
scan_section image shstrtab h scan =
    if is_skipped h
    then ok scan
    else with_name (λ name. take_section image h name scan) (read_cstr shstrtab h.sh_name_idx)

abbrev pub header_offset : ElfHeader → ℕ → ℕ
header_offset elf i = add_usize elf.e_shoff (i * elf.e_shentsize)

-- One round of the loop: whether the header ends after the file, what its section gives, and the
-- rounds after it.
abbrev pub next_round :
    {A : Type 0} → Bool → Result ElfError A → A → (A → Result ElfError A) → Result ElfError A
next_round true section scan rest = ok scan
next_round false (ok next) scan rest = rest next
next_round false (err e) scan rest = err e

-- The loop, with the number of sections that are left.
unfoldable pub scan_sections : Bytes → Bytes → ElfHeader → ℕ → ℕ → Scan → Result ElfError Scan
scan_sections image shstrtab elf zero i scan = ok scan
scan_sections image shstrtab elf (suc n) i scan =
    next_round (ltb (length image) (add_usize (header_offset elf i) elf.e_shentsize))
      (scan_section image shstrtab (section_header image (header_offset elf i)) scan) scan
      (λ next. scan_sections image shstrtab elf n (suc i) next)

pub record Program : Type 0 where
  pub insns : Bytes
  pub license : Text
  pub prog_type : ℕ

-- The checks of the program that the scan found.
unfoldable pub check_program : Scan → Option Bytes → Result ElfError Program
check_program scan none = err no_program
check_program scan (some b) =
    if length b == 0
    then err empty_program
    else if not (length b % 8 == 0)
    then err (misaligned (length b))
    else if ltb bpf_max_prog_size (length b)
    then err (too_large (length b))
    else ok (record { insns = b; license = scan.license; prog_type = scan.prog_type_hint })

abbrev pub fresh_scan : Scan
fresh_scan = record {
  prog_bytes = none;
  license = text "GPL";
  prog_type_hint = bpf_prog_type_unspecified;
}

abbrev pub scanned : Bytes → ElfHeader → Result ElfError Bytes → Result ElfError Scan
scanned image elf (err e) = err e
scanned image elf (ok shstrtab) = scan_sections image shstrtab elf elf.e_shnum 0 fresh_scan

abbrev pub checked : Result ElfError Scan → Result ElfError Program
checked (err e) = err e
checked (ok scan) = check_program scan scan.prog_bytes

abbrev pub elf_magic : Bytes
elf_magic = 0x7f ∷ 69 ∷ 76 ∷ 70 ∷ []

abbrev pub has_byte : Bytes → ℕ → ℕ → Bool
has_byte image i b = unwrap_or 0 (get_elem? image i) == b

unfoldable pub load_bpf_object_file : Bytes → Result ElfError Program
load_bpf_object_file image =
    let elf = elf_header image in
    if ltb (length image) 16
    then err too_small
    else if not (is_prefix elf_magic image)
    then err not_elf
    else if not (has_byte image 4 2)
    then err not_64_bit
    else if not (has_byte image 5 1)
    then err not_little_endian
    else if elf.e_shoff == 0 || elf.e_shnum == 0
    then err no_section_headers
    else checked
        (scanned image elf (read_section_data image elf.e_shoff elf.e_shentsize elf.e_shstrndx))

-- `infer_tc_section`: a file that cannot be read has no bytes here.
unfoldable pub is_tc_section : Text → Bool
is_tc_section name =
    is_bpf_prog_section name
    && (is_prefix (text "tc") name || name == text "classifier" || name == text "action")

-- The name that one round of the loop returns, if it does.
abbrev pub if_tc : Result ElfError Text → Result ElfError (Option Text)
if_tc (err e) = err e
if_tc (ok name) = ok (if is_tc_section name then some name else none)

unfoldable pub tc_name : Bytes → SectionHeader → Result ElfError (Option Text)
tc_name shstrtab h =
    if not (h.sh_type == 1) then ok none else if_tc (read_cstr shstrtab h.sh_name_idx)

abbrev pub next_name :
    Bool → Result ElfError (Option Text) → (Unit {0} → Result ElfError Text) → Result ElfError Text
next_name true name rest = ok (text "classifier")
next_name false (err e) rest = err e
next_name false (ok (some name)) rest = ok name
next_name false (ok none) rest = rest tt

unfoldable pub find_tc_section : Bytes → Bytes → ElfHeader → ℕ → ℕ → Result ElfError Text
find_tc_section image shstrtab elf zero i = ok (text "classifier")
find_tc_section image shstrtab elf (suc n) i =
    next_name (ltb (length image) (add_usize (header_offset elf i) elf.e_shentsize))
      (tc_name shstrtab (section_header image (header_offset elf i)))
      (λ _. find_tc_section image shstrtab elf n (suc i))

abbrev pub or_classifier : Bytes → ElfHeader → Result ElfError Bytes → Result ElfError Text
or_classifier image elf (err e) = ok (text "classifier")
or_classifier image elf (ok shstrtab) = find_tc_section image shstrtab elf elf.e_shnum 0

unfoldable pub infer_tc_section : Option Bytes → Result ElfError Text
infer_tc_section none = ok (text "classifier")
infer_tc_section (some image) =
    let elf = elf_header image in
    if ltb (length image) 64 || not (is_prefix elf_magic image)
    then ok (text "classifier")
    else or_classifier image elf
        (read_section_data image elf.e_shoff elf.e_shentsize elf.e_shstrndx)
