-- ===== src/HostEbpf/Object/Loadable.antt =====
-- What the reader of object files promises of a program that it returns.
use fastenv.Base.{
  ok-injective, some-injective, ℕ, ◌≤◌, ◌<◌, ◌%◌, Bytes, Text, length, not, Bool-cases, inl, inr,
  Option, none, some, Result, ok, err, ◌≡◌, refl, arith, ◌==◌, nat_Eq, list_Eq, ltb, ◌∙◌, sym,
  subst,
}
use fastenv.HostEbpf.Elf.{
  ElfError, ElfHeader, elf_header, read_section_data, infer_prog_type_from_section,
}
use fastenv.HostEbpf.Object.{
  Scan, scan_sections, Program, check_program, checked, scanned, fresh_scan, load_bpf_object_file,
  bpf_max_prog_size,
}
use fastenv.HostEbpf.Object.Scanning.{
  IsProgram, NoProgram, Seen, nothing, found, scan_sections-Seen, none-some,
}

err-ok : {A : Type 0} {a : A} {e : ElfError} → ¬ (◌≡◌ {A = Result ElfError A} (err e) (ok a))
err-ok h = cc

-- What a returned program is: the bytes of the first section that is a program, cut into whole
-- instructions, within the limit, with the type that the section's name stands for.
pub record Loadable (image : Bytes) (p : Program) : Type 0 where
  pub nonempty : 0 < length p.insns
  pub whole : length p.insns % 8 ≡ 0
  pub bounded : length p.insns ≤ bpf_max_prog_size
  -- The section with the names, that the file's header gives.
  pub shstrtab : Bytes
  pub names :
      read_section_data image
        (elf_header image).e_shoff
        (elf_header image).e_shentsize
        (elf_header image).e_shstrndx
      ≡ ok shstrtab
  pub index : ℕ
  pub in_table : index < (elf_header image).e_shnum
  pub name : Text
  pub program : IsProgram image shstrtab (elf_header image) index name p.insns
  pub first : (j : ℕ) → j < index → NoProgram image shstrtab (elf_header image) j
  pub typed : p.prog_type ≡ infer_prog_type_from_section name

-- The checks at the end.
check_program-Checked :
    (scan : Scan) (o : Option Bytes) (p : Program)
    → check_program scan o ≡ ok p
    → (o ≡ some p.insns)
      × (p.prog_type ≡ scan.prog_type_hint)
      × (0 < length p.insns)
      × (length p.insns % 8 ≡ 0)
      × (length p.insns ≤ bpf_max_prog_size)
unfolding check_program
check_program-Checked scan none p h = cc
check_program-Checked scan (some b) p h = elim (Bool-cases (length b == 0)) [
  | inl t ↦ absurd (err-ok (rw t at h))
  | inr f ↦ elim (Bool-cases (not (length b % 8 == 0))) [
    | inl t ↦ absurd (err-ok (rw t at rw f at h))
    | inr g ↦ elim (Bool-cases (ltb bpf_max_prog_size (length b))) [
      | inl t ↦ absurd (err-ok (rw t at rw g at rw f at h))
      | inr k ↦
          subst
            (λ q.
              (◌≡◌ {A = Option Bytes} (some b) (some q.insns))
              × (q.prog_type ≡ scan.prog_type_hint)
              × (0 < length q.insns)
              × (length q.insns % 8 ≡ 0)
              × (length q.insns ≤ bpf_max_prog_size))
            (ok-injective (rw k at rw g at rw f at h))
            (refl, refl, ground arith, ground arith, ground arith)
    ]
  ]
]

abbrev AreNames : Bytes → Bytes → Type 0
AreNames image shstrtab =
    read_section_data image (elf_header image).e_shoff (elf_header image).e_shentsize
      (elf_header image).e_shstrndx
    ≡ ok shstrtab

from_Seen :
    (image shstrtab : Bytes)
    → AreNames image shstrtab
    → (p : Program) (scan : Scan) (k : ℕ) → k ≤ (elf_header image).e_shnum
    → Seen image shstrtab (elf_header image) k scan
    → check_program scan scan.prog_bytes ≡ ok p
    → Loadable image p
from_Seen image shstrtab names p scan k le (nothing e all) h =
    absurd (none-some (sym e ∙ (check_program-Checked scan scan.prog_bytes p h).0))
from_Seen image shstrtab names p scan k le (found {k = i} {name = name} lt q all e t) h =
    let (kept, typed, nonempty, whole, bounded) = check_program-Checked scan scan.prog_bytes p h in
    record {
      nonempty = nonempty;
      whole = whole;
      bounded = bounded;
      shstrtab = shstrtab;
      names = names;
      index = i;
      in_table = omega arith;
      name = name;
      program =
          subst (λ c. IsProgram image shstrtab (elf_header image) i name c)
            (some-injective (sym e ∙ kept)) q;
      first = all;
      typed = typed ∙ t;
    }

from_scan :
    (image shstrtab : Bytes)
    → AreNames image shstrtab
    → (p : Program) (r : Result ElfError Scan)
    → scan_sections image shstrtab (elf_header image) (elf_header image).e_shnum 0 fresh_scan ≡ r
    → checked r ≡ ok p
    → Loadable image p
from_scan image shstrtab names p (err _) e h = cc
from_scan image shstrtab names p (ok scan) e h =
    let (k, le, seen) =
      scan_sections-Seen image shstrtab (elf_header image) (elf_header image).e_shnum 0 fresh_scan
        scan (nothing refl (λ j lt. absurd (omega arith))) e in
    from_Seen image shstrtab names p scan k (omega arith) seen h

load_scanned :
    (image : Bytes) (p : Program) (r : Result ElfError Bytes)
    → read_section_data image
        (elf_header image).e_shoff
        (elf_header image).e_shentsize
        (elf_header image).e_shstrndx
      ≡ r
    → checked (scanned image (elf_header image) r) ≡ ok p
    → Loadable image p
load_scanned image p (err _) e h = cc
load_scanned image p (ok shstrtab) e h = from_scan image shstrtab e p _ refl h

-- A program that load_bpf_object_file returns is not empty, is a whole number of instructions of 8
-- bytes, is at most 4 MiB, and is the contents of the first section of the file's table that is a
-- program and lies in the file, with the type that stands for the name which the file's section of
-- names gives that section.
pub load_bpf_object_file-Loadable :
    (image : Bytes) (p : Program) → load_bpf_object_file image ≡ ok p → Loadable image p
unfolding load_bpf_object_file
load_bpf_object_file-Loadable image p h =
    load_scanned image p (read_section_data image elf.e_shoff elf.e_shentsize elf.e_shstrndx) refl
      (ground arith)
  where
    elf : ElfHeader
    elf = elf_header image
