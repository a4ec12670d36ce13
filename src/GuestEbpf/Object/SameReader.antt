-- ===== src/GuestEbpf/Object/SameReader.antt =====
-- The guest's reader of object files and the host's are the same function.
use fastenv.Base.{
  ℕ, zero, suc, Text, text, Bytes, length, is_prefix, Bool, true, false, ◌&&◌, ◌||◌, not, ◌%◌,
  Bool-cases, inl, inr, Option, none, some, Result, ok, err, ◌==◌, nat_Eq, list_Eq, list_eq, eq_iff,
  ltb, if◌then◌else◌, ◌≡◌, refl, ap, ◌∙◌, sym, subst,
}
use fastenv.HostEbpf.Elf.{
  too_small, not_elf, not_64_bit, not_little_endian, no_section_headers, ElfError, ElfHeader,
  elf_header, SectionHeader, section_header, read_section_data, read_cstr, is_bpf_prog_section,
}
use fastenv.HostEbpf.Object.{
  Scan, Program, is_skipped, is_none, take_section, scan_section, scan_sections, with_name,
  next_round, header_offset, scanned, checked, check_program, bpf_max_prog_size, elf_magic,
  has_byte, fresh_scan, load_bpf_object_file,
}
use fastenv.GuestEbpf.Object.{
  is_bpf_section, Found, take_bytes, find_section, find_sections, found_in, with_bytes, bytes_found,
  load_bpf_bytes_from_elf, check_bytes, then_checked,
}

-- Two tests of one function that agree on a name agree where the name is given by a test.
at_name :
    (known name : Text)
    → is_bpf_section known ≡ is_bpf_prog_section known
    → (name == known) ≡ true
    → is_bpf_section name ≡ is_bpf_prog_section name
at_name known name h t =
    subst (λ n. is_bpf_section n ≡ is_bpf_prog_section n) (sym ((eq_iff name known).0 t)) h

both_known :
    (is_bpf_section (text "sockops") ≡ is_bpf_prog_section (text "sockops"))
    × (is_bpf_section (text "cgroup/connect4") ≡ is_bpf_prog_section (text "cgroup/connect4"))
    × (is_bpf_section (text "cgroup/connect6") ≡ is_bpf_prog_section (text "cgroup/connect6"))
unfolding is_bpf_section is_bpf_prog_section list_eq
both_known = (refl, refl, refl)

-- The two lists without the names that only the host's holds.
or_swap : (a b r : Bool) → (a || (b || r)) ≡ (b || (a || r))
or_swap true true r = refl
or_swap true false r = refl
or_swap false true r = refl
or_swap false false r = refl

common_names :
    (name : Text)
    → (name == text "sockops") ≡ false
    → (name == text "cgroup/connect4") ≡ false
    → (name == text "cgroup/connect6") ≡ false
    → is_bpf_section name ≡ is_bpf_prog_section name
unfolding is_bpf_section is_bpf_prog_section
common_names name s c d =
    rw (s, c, d, or_swap (name == text ".text") (name == text "classifier")) refl

-- The names that only the host's list holds start like others of both.
is_bpf_section-is_bpf_prog_section : (name : Text) → is_bpf_section name ≡ is_bpf_prog_section name
is_bpf_section-is_bpf_prog_section name = elim (Bool-cases (name == text "sockops")) [
  | inl t ↦ at_name _ name both_known.0 t
  | inr s ↦ elim (Bool-cases (name == text "cgroup/connect4")) [
    | inl t ↦ at_name _ name both_known.1 t
    | inr c ↦ elim (Bool-cases (name == text "cgroup/connect6")) [
      | inl t ↦ at_name _ name both_known.2 t
      | inr d ↦ common_names name s c d
    ]
  ]
]

abbrev pub forget : Scan → Found
forget scan = record { prog_bytes = scan.prog_bytes; license = scan.license }

abbrev pub mapped : {A B : Type 0} → (A → B) → Result ElfError A → Result ElfError B
mapped f (ok a) = ok (f a)
mapped f (err e) = err e

take_bytes-forget :
    (image : Bytes) (h : SectionHeader) (name : Text) (scan : Scan)
    → take_bytes image h name (forget scan) ≡ forget (take_section image h name scan)
unfolding take_bytes take_section
take_bytes-forget image h name scan = elim (Bool-cases (name == text "license")) [
  | inl l ↦ rw l refl
  | inr l ↦ elim (Bool-cases (is_none scan.prog_bytes && is_bpf_prog_section name)) [
    | inl p ↦ rw (is_bpf_section-is_bpf_prog_section name, l, p) refl
    | inr p ↦ rw (is_bpf_section-is_bpf_prog_section name, l, p) refl
  ]
]

find_section-forget :
    (image shstrtab : Bytes) (h : SectionHeader) (scan : Scan)
    → find_section image shstrtab h (forget scan)
      ≡ mapped forget (scan_section image shstrtab h scan)
unfolding find_section scan_section
find_section-forget image shstrtab h scan = go (is_skipped h) (read_cstr shstrtab h.sh_name_idx)
  where
    named :
        (r : Result ElfError Text)
        → with_name (λ name. take_bytes image h name (forget scan)) r
          ≡ mapped forget (with_name (λ name. take_section image h name scan) r)
    named (ok name) = ap ok (take_bytes-forget image h name scan)
    named (err e) = refl

    go :
        (b : Bool) (r : Result ElfError Text)
        → (if b
            then ok (forget scan)
            else with_name (λ name. take_bytes image h name (forget scan)) r)
          ≡ mapped forget
              (if b then ok scan else with_name (λ name. take_section image h name scan) r)
    go true r = refl
    go false r = named r

next_round-forget :
    (ends : Bool) (r : Result ElfError Scan) (scan : Scan)
    → (rest : Scan → Result ElfError Scan) (rest' : Found → Result ElfError Found)
    → ((s : Scan) → rest' (forget s) ≡ mapped forget (rest s))
    → next_round ends (mapped forget r) (forget scan) rest'
      ≡ mapped forget (next_round ends r scan rest)
next_round-forget true r scan rest rest' h = refl
next_round-forget false (ok s) scan rest rest' h = h s
next_round-forget false (err e) scan rest rest' h = refl

find_sections-forget :
    (image shstrtab : Bytes) (elf : ElfHeader) (n i : ℕ) (scan : Scan)
    → find_sections image shstrtab elf n i (forget scan)
      ≡ mapped forget (scan_sections image shstrtab elf n i scan)
unfolding find_sections scan_sections
find_sections-forget image shstrtab elf zero i scan = refl
find_sections-forget image shstrtab elf (suc n) i scan =
    rw (find_section-forget image shstrtab (section_header image (header_offset elf i)) scan) (
      next_round-forget _
        (scan_section image shstrtab (section_header image (header_offset elf i)) scan) scan _ _
        (find_sections-forget image shstrtab elf n (suc i)))

-- What the guest loads of a host's program.
abbrev pub insns_of : Program → Bytes × Text
insns_of p = (p.insns, p.license)

check-forget :
    (scan : Scan) (o : Option Bytes)
    → then_checked (with_bytes scan.license o) ≡ mapped insns_of (check_program scan o)
unfolding check_bytes check_program
check-forget scan none = refl
check-forget scan (some b) = elim (Bool-cases (length b == 0)) [
  | inl t ↦ rw t refl
  | inr f ↦ elim (Bool-cases (not (length b % 8 == 0))) [
    | inl t ↦ rw (f, t) refl
    | inr g ↦ elim (Bool-cases (ltb bpf_max_prog_size (length b))) [
      | inl t ↦ rw (f, g, t) refl
      | inr k ↦ rw (f, g, k) refl
    ]
  ]
]

found-forget :
    (r : Result ElfError Scan)
    → then_checked (bytes_found (mapped forget r)) ≡ mapped insns_of (checked r)
found-forget (ok scan) = check-forget scan scan.prog_bytes
found-forget (err e) = refl

scanned-forget :
    (image : Bytes) (elf : ElfHeader) (r : Result ElfError Bytes)
    → then_checked (bytes_found (found_in image elf r))
      ≡ mapped insns_of (checked (scanned image elf r))
scanned-forget image elf (err e) = refl
scanned-forget image elf (ok shstrtab) =
    ap (λ r. then_checked (bytes_found r))
      (find_sections-forget image shstrtab elf elf.e_shnum 0 fresh_scan)
    ∙ found-forget (scan_sections image shstrtab elf elf.e_shnum 0 fresh_scan)

-- A test before the rest, on both sides.
guarded :
    (b : Bool) (e : ElfError) (r : Result ElfError (Bytes × Text)) (s : Result ElfError Program)
    → then_checked r ≡ mapped insns_of s
    → then_checked (if b then err e else r) ≡ mapped insns_of (if b then err e else s)
guarded true e r s h = refl
guarded false e r s h = h

-- For every file, the guest's reader with the checks of load_guest_bpf_prog returns the
-- instructions and the license of the host's reader, or its error.
pub load_bpf_bytes_from_elf-load_bpf_object_file :
    (image : Bytes)
    → then_checked (load_bpf_bytes_from_elf image) ≡ mapped insns_of (load_bpf_object_file image)
unfolding load_bpf_bytes_from_elf load_bpf_object_file
load_bpf_bytes_from_elf-load_bpf_object_file image = guarded (ltb (length image) 16) too_small _ _ (
    guarded (not (is_prefix elf_magic image)) not_elf _ _ (
      guarded (not (has_byte image 4 2)) not_64_bit _ _ (
        guarded (not (has_byte image 5 1)) not_little_endian _ _ (
          guarded (elf.e_shoff == 0 || elf.e_shnum == 0) no_section_headers _ _ (
            scanned-forget image elf
              (read_section_data image elf.e_shoff elf.e_shentsize elf.e_shstrndx))))))
  where
    elf : ElfHeader
    elf = elf_header image
