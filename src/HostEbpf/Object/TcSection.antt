-- ===== src/HostEbpf/Object/TcSection.antt =====
-- What `infer_tc_section` finds in an object file.
use fastenv.Base.{
  ok-injective, some-injective, ℕ, zero, suc, ◌+◌, ◌≤◌, ◌<◌, Bytes, Text, text, Bool, true, false,
  Bool-cases, &&_true, inl, inr, is_prefix, Option, none, some, Result, ok, err, ◌≡◌, ◌⊎◌, refl,
  ◌==◌, eq_iff, nat_Eq, list_Eq, list_eq, subst, sym, if◌then◌else◌, length, ltb, arith, ◌||◌,
}
use fastenv.HostEbpf.Elf.{
  is_bpf_prog_section, infer_prog_type_from_section, bpf_prog_type_sched_cls, add_usize, ElfError,
  ElfHeader, elf_header, read_cstr, read_section_data, SectionHeader, section_header,
}
use fastenv.HostEbpf.Object.{
  is_tc_section, if_tc, tc_name, next_name, find_tc_section, infer_tc_section, header_offset,
  elf_magic,
}

true-false : ¬ (true ≡ false)
true-false h = cc

none-some : {name : Text} → ¬ (◌≡◌ {A = Option Text} none (some name))
none-some h = cc

err-ok : {A : Type 0} {a : A} {e : ElfError} → ¬ (◌≡◌ {A = Result ElfError A} (err e) (ok a))
err-ok h = cc

module _ (image shstrtab : Bytes) (elf : ElfHeader) where
  abbrev pub header : ℕ → SectionHeader
  header i = section_header image (header_offset elf i)

  -- The section at this index holds program bytes, and its name is one of a classifier.
  pub record IsTc (i : ℕ) (name : Text) : Type 0 where
    pub program_bytes : (header i).sh_type ≡ 1
    pub named : read_cstr shstrtab (header i).sh_name_idx ≡ ok name
    pub classifier : is_tc_section name ≡ true

  abbrev pub NoTc : ℕ → ℕ → Type 0
  NoTc i j = (k : ℕ) → i ≤ k → k < j → (name : Text) → ¬ IsTc k name

  -- The header of this section does not lie in the file.
  abbrev pub IsCut : ℕ → Type 0
  IsCut m = ltb (length image) (add_usize (header_offset elf m) elf.e_shentsize) ≡ true

  -- The first section of a classifier from an index to a bound, or the default where there is none
  -- before the bound or the end of the file.
  pub data First (i bound : ℕ) (name : Text) : Type 0 where
    at_index : (j : ℕ) → i ≤ j → j < bound → IsTc j name → NoTc i j → First i bound name
    by_default :
        name ≡ text "classifier"
        → (m : ℕ) → i ≤ m
        → m ≤ bound
        → NoTc i m
        → (m ≡ bound) ⊎ IsCut m
        → First i bound name

  none_at : (i : ℕ) (name : Text) → tc_name shstrtab (header i) ≡ ok none → ¬ IsTc i name
  unfolding tc_name
  none_at i name e is =
      by_name (read_cstr shstrtab (header i).sh_name_idx) is.named (rw is.program_bytes at e)
    where
      chosen :
          (b : Bool) → b ≡ true → ¬ (◌≡◌ {A = Option Text} (if b then some name else none) none)
      chosen true t h = none-some (sym h)
      chosen false t h = true-false (sym t)

      by_name : (r : Result ElfError Text) → r ≡ ok name → if_tc r ≡ ok none → ⊥
      by_name (err x) h g = err-ok h
      by_name (ok n) h g = chosen (is_tc_section name) is.classifier (
          subst (λ m. ◌≡◌ {A = Option Text} (if is_tc_section m then some m else none) none)
            (ok-injective h) (ok-injective g))

  some_at : (i : ℕ) (name : Text) → tc_name shstrtab (header i) ≡ ok (some name) → IsTc i name
  unfolding tc_name
  some_at i name e = elim (Bool-cases ((header i).sh_type == 1)) [
    | inl t ↦
        by_name ((eq_iff _ _).0 t) (read_cstr shstrtab (header i).sh_name_idx) refl (rw t at e)
    | inr f ↦ absurd (none-some (ok-injective (rw f at e)))
  ]
    where
      chosen :
          (n : Text) (b : Bool)
          → is_tc_section n ≡ b
          → (header i).sh_type ≡ 1
          → read_cstr shstrtab (header i).sh_name_idx ≡ ok n
          → ◌≡◌ {A = Option Text} (if b then some n else none) (some name)
          → IsTc i name
      chosen n true c kind r h =
          subst (IsTc i) (some-injective h)
            (record { program_bytes = kind; named = r; classifier = c })
      chosen n false c kind r h = absurd (none-some h)

      by_name :
          (header i).sh_type ≡ 1
          → (r : Result ElfError Text) → read_cstr shstrtab (header i).sh_name_idx ≡ r
          → if_tc r ≡ ok (some name)
          → IsTc i name
      by_name kind (err x) r h = absurd (err-ok h)
      by_name kind (ok n) r h = chosen n (is_tc_section n) refl kind r (ok-injective h)

  -- One index more at the start, where there is no such section.
  NoTc-from : (i j : ℕ) → ((name : Text) → ¬ IsTc i name) → NoTc (suc i) j → NoTc i j
  NoTc-from i j here later k le lt = elim (Bool-cases (k == i)) [
    | inl t ↦ λ name is. here name (subst (λ x. IsTc x name) ((eq_iff k i).0 t) is)
    | inr f ↦ later k (ground arith) lt
  ]

  First-from :
      (i n : ℕ) (name : Text)
      → ((other : Text) → ¬ IsTc i other)
      → First (suc i) (n + suc i) name
      → First i (suc n + i) name
  First-from i n name here (at_index j le lt is all) =
      at_index j (omega arith) (omega arith) is (NoTc-from i j here all)
  First-from i n name here (by_default e m le lt all why) =
      by_default e m (omega arith) (omega arith) (NoTc-from i m here all) (later why)
    where
      later : (m ≡ n + suc i) ⊎ IsCut m → (m ≡ suc n + i) ⊎ IsCut m
      later (inl same) = inl (omega arith)
      later (inr cut) = inr cut

  next_name-First :
      (i n : ℕ) (name : Text) (ends : Bool)
      → ltb (length image) (add_usize (header_offset elf i) elf.e_shentsize) ≡ ends
      → (r : Result ElfError (Option Text)) → tc_name shstrtab (header i) ≡ r
      → (rest : Unit {0} → Result ElfError Text)
      → (rest tt ≡ ok name → First (suc i) (n + suc i) name)
      → next_name ends r rest ≡ ok name
      → First i (suc n + i) name
  next_name-First i n name true cut r e rest h g =
      by_default (sym (ok-injective g)) i (omega arith) (omega arith)
        (λ k le lt. absurd (omega arith)) (inr cut)
  next_name-First i n name false cut (err x) e rest h g = absurd (err-ok g)
  next_name-First i n name false cut (ok (some found)) e rest h g =
      at_index i (omega arith) (omega arith) (subst (IsTc i) (ok-injective g) (some_at i found e))
        (λ k le lt. absurd (omega arith))
  next_name-First i n name false cut (ok none) e rest h g =
      First-from i n name (λ other. none_at i other e) (h g)

  find_tc_section-First :
      (n i : ℕ) (name : Text)
      → find_tc_section image shstrtab elf n i ≡ ok name
      → First i (n + i) name
  unfolding find_tc_section
  find_tc_section-First zero i name h =
      by_default (sym (ok-injective h)) i (omega arith) (omega arith)
        (λ k le lt. absurd (omega arith)) (inl (omega arith))
  find_tc_section-First (suc n) i name h =
      next_name-First i n name _ refl _ refl _ (find_tc_section-First n (suc i) name) h

-- The loader infers a classifier from such a name too.
classifier_type :
    (name : Text)
    → is_tc_section name ≡ true
    → infer_prog_type_from_section name ≡ bpf_prog_type_sched_cls
unfolding is_tc_section infer_prog_type_from_section
classifier_type name h =
    let t =
      (&&_true (is_bpf_prog_section name)
        (is_prefix (text "tc") name || name == text "classifier" || name == text "action") h).1 in
    rw t refl

default_type : infer_prog_type_from_section (text "classifier") ≡ bpf_prog_type_sched_cls
unfolding infer_prog_type_from_section list_eq
default_type = refl

First-type :
    (image shstrtab : Bytes) (elf : ElfHeader) (i bound : ℕ) (name : Text)
    → First image shstrtab elf i bound name
    → infer_prog_type_from_section name ≡ bpf_prog_type_sched_cls
First-type image shstrtab elf i bound name (at_index j le lt is all) =
    classifier_type name is.classifier
First-type image shstrtab elf i bound name (by_default e m le lt all why) = rw e default_type

-- In an ELF file of at least 64 bytes whose section of names can be read, a name that
-- infer_tc_section returns is that of the first section of the table with program bytes and the
-- name of a classifier, or the default name if no section is one before the table or the file ends;
-- load_bpf_object_file infers a traffic classifier from it.
pub infer_tc_section-First :
    (image shstrtab : Bytes) (name : Text)
    → ltb (length image) 64 ≡ false
    → is_prefix elf_magic image ≡ true
    → read_section_data image
        (elf_header image).e_shoff
        (elf_header image).e_shentsize
        (elf_header image).e_shstrndx
      ≡ ok shstrtab
    → infer_tc_section (some image) ≡ ok name
    → First image shstrtab (elf_header image) 0 (elf_header image).e_shnum name
      × (infer_prog_type_from_section name ≡ bpf_prog_type_sched_cls)
unfolding infer_tc_section
infer_tc_section-First image shstrtab name long magic names h =
    (first, First-type image shstrtab (elf_header image) 0 (elf_header image).e_shnum name first)
  where
    first : First image shstrtab (elf_header image) 0 (elf_header image).e_shnum name
    first =
        subst (λ b. First image shstrtab (elf_header image) 0 b name) (omega arith)
          (find_tc_section-First image shstrtab (elf_header image) (elf_header image).e_shnum 0 name
            (rw names at rw magic at rw long at h))
