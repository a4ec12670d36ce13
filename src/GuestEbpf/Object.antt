-- ===== src/GuestEbpf/Object.antt =====
-- src/guest_ebpf.rs: the reader of object files, which is written anew beside the one of
-- src/host_ebpf.rs, and the checks before a load. The readers of numbers and strings are the same
-- in both files.
pub mod SameReader
use fastenv.Base.{
  ℕ, zero, suc, ◌+◌, ◌%◌, Text, text, Bytes, length, is_prefix, any, Bool, true, false, ◌&&◌, ◌||◌,
  not, List, [], ◌∷◌, Option, none, some, Result, ok, err, ◌==◌, nat_Eq, list_Eq, ltb,
  if◌then◌else◌, unwrap_or,
}
use fastenv.HostEbpf.Elf.{
  ElfError, too_small, not_elf, not_64_bit, not_little_endian, no_section_headers, no_program,
  empty_program, misaligned, too_large, add_usize, ElfHeader, elf_header, SectionHeader,
  section_header, section_bytes, read_section_data, read_cstr, trim_end_zeros,
}
use fastenv.HostEbpf.Object.{
  is_skipped, is_none, from_utf8_or_gpl, with_name, next_round, header_offset, bpf_max_prog_size,
  has_byte, elf_magic,
}

unfoldable pub is_bpf_section : Text → Bool
is_bpf_section name =
    any (λ known. name == known)
      (text ".text"
        ∷ text "classifier"
        ∷ text "action"
        ∷ text "xdp"
        ∷ text "kprobe"
        ∷ text "kretprobe"
        ∷ text "tracepoint"
        ∷ text "raw_tracepoint"
        ∷ [])
    || is_prefix (text "tc") name
    || is_prefix (text "tracepoint/") name
    || is_prefix (text "kprobe/") name
    || is_prefix (text "kretprobe/") name
    || is_prefix (text "xdp") name
    || is_prefix (text "cgroup/") name
    || is_prefix (text "sk_msg") name
    || is_prefix (text "sockops") name

-- The variables of the scan.
pub record Found : Type 0 where
  pub prog_bytes : Option Bytes
  pub license : Text

unfoldable pub take_bytes : Bytes → SectionHeader → Text → Found → Found
take_bytes image h name found =
    if name == text "license"
    then record found {
      license = trim_end_zeros (from_utf8_or_gpl (unwrap_or [] (section_bytes image h)));
    }
    else if is_none found.prog_bytes && is_bpf_section name
    then record found { prog_bytes = section_bytes image h }
    else found

unfoldable pub find_section : Bytes → Bytes → SectionHeader → Found → Result ElfError Found
find_section image shstrtab h found =
    if is_skipped h
    then ok found
    else with_name (λ name. take_bytes image h name found) (read_cstr shstrtab h.sh_name_idx)

unfoldable pub find_sections : Bytes → Bytes → ElfHeader → ℕ → ℕ → Found → Result ElfError Found
find_sections image shstrtab elf zero i found = ok found
find_sections image shstrtab elf (suc n) i found =
    next_round (ltb (length image) (add_usize (header_offset elf i) elf.e_shentsize))
      (find_section image shstrtab (section_header image (header_offset elf i)) found) found
      (λ next. find_sections image shstrtab elf n (suc i) next)

abbrev pub first_found : Found
first_found = record { prog_bytes = none; license = text "GPL" }

abbrev pub found_in : Bytes → ElfHeader → Result ElfError Bytes → Result ElfError Found
found_in image elf (err e) = err e
found_in image elf (ok shstrtab) = find_sections image shstrtab elf elf.e_shnum 0 first_found

-- The program's bytes and the license.
abbrev pub with_bytes : Text → Option Bytes → Result ElfError (Bytes × Text)
with_bytes license none = err no_program
with_bytes license (some b) = ok (b, license)

abbrev pub bytes_found : Result ElfError Found → Result ElfError (Bytes × Text)
bytes_found (err e) = err e
bytes_found (ok found) = with_bytes found.license found.prog_bytes

unfoldable pub load_bpf_bytes_from_elf : Bytes → Result ElfError (Bytes × Text)
load_bpf_bytes_from_elf image =
    let elf = elf_header image in
    if ltb (length image) 16
    then err too_small
    else if not (is_prefix elf_magic image)
    then err not_elf
    else if not (has_byte image 4 2)
    then err not_64_bit
    else if not (has_byte image 5 1)
    then err not_little_endian
    else if elf.e_shoff == 0 || elf.e_shnum == 0
    then err no_section_headers
    else bytes_found
        (found_in image elf (read_section_data image elf.e_shoff elf.e_shentsize elf.e_shstrndx))

-- The checks of `load_guest_bpf_prog` before the load.
unfoldable pub check_bytes : Bytes × Text → Result ElfError (Bytes × Text)
check_bytes (b, license) =
    if length b == 0
    then err empty_program
    else if not (length b % 8 == 0)
    then err (misaligned (length b))
    else if ltb bpf_max_prog_size (length b)
    then err (too_large (length b))
    else ok (b, license)

abbrev pub then_checked : Result ElfError (Bytes × Text) → Result ElfError (Bytes × Text)
then_checked (err e) = err e
then_checked (ok p) = check_bytes p
