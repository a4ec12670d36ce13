-- ===== src/HostEbpf/Object/Scanning.antt =====
-- What the scan of an object file holds of the sections that it has passed.
use fastenv.Base.{
  ok-injective, ℕ, zero, suc, ◌+◌, ◌≤◌, ◌<◌, Bytes, Text, text, Bool, true, false, Bool-cases, ◌&&◌,
  &&_true, inl, inr, Option, none, some, Result, ok, err, ◌≡◌, refl, arith, ◌==◌, nat_Eq, list_Eq,
  list_eq, if◌then◌else◌, ◌∙◌, sym, subst, eq_iff,
}
use fastenv.HostEbpf.Elf.{
  ElfError, ElfHeader, SectionHeader, section_header, section_bytes, read_cstr, is_bpf_prog_section,
  infer_prog_type_from_section,
}
use fastenv.HostEbpf.Object.{
  Scan, is_skipped, take_section, scan_section, scan_sections, header_offset, is_none, with_name,
  next_round,
}

-- A condition on all numbers below a bound, one further.
below_suc : {P : ℕ → Type 0} {i : ℕ} → ((j : ℕ) → j < i → P j) → P i → (j : ℕ) → j < suc i → P j
below_suc {P = P} {i = i} h p j lt = elim (Bool-cases (j == i)) [
  | inl t ↦ subst P (sym ((eq_iff j i).0 t)) p
  | inr f ↦ h j (ground arith)
]

is_none-some : {b : Bytes} (o : Option Bytes) → is_none o ≡ true → ¬ (o ≡ some b)
is_none-some none h e = cc
is_none-some (some c) h e = cc

pub none-some : {b : Bytes} → ¬ (◌≡◌ {A = Option Bytes} none (some b))
none-some h = cc

not_both : (o : Option Bytes) (k : Bool) → (is_none o && k) ≡ false → o ≡ none → ¬ (k ≡ true)
not_both none k f e t = cc
not_both (some b) k f e t = cc

true-false : ¬ (true ≡ false)
true-false h = cc

license-not_program : ¬ (is_bpf_prog_section (text "license") ≡ true)
unfolding is_bpf_prog_section list_eq
license-not_program h = cc

module _ (image shstrtab : Bytes) (elf : ElfHeader) where
  abbrev pub header : ℕ → SectionHeader
  header i = section_header image (header_offset elf i)

  -- The section at this index is a program: its name is one, and its bytes lie in the file.
  pub record IsProgram (i : ℕ) (name : Text) (b : Bytes) : Type 0 where
    pub kept : is_skipped (header i) ≡ false
    pub named : read_cstr shstrtab (header i).sh_name_idx ≡ ok name
    pub known : is_bpf_prog_section name ≡ true
    pub contents : section_bytes image (header i) ≡ some b

  abbrev pub NoProgram : ℕ → Type 0
  NoProgram i = (name : Text) (b : Bytes) → ¬ IsProgram i name b

  -- What the scan holds of the sections below an index.
  pub data Seen (i : ℕ) (scan : Scan) : Type 0 where
    nothing : scan.prog_bytes ≡ none → ((j : ℕ) → j < i → NoProgram j) → Seen i scan
    found :
        {k : ℕ} {name : Text} {b : Bytes}
        → k < i
        → IsProgram k name b
        → ((j : ℕ) → j < k → NoProgram j)
        → scan.prog_bytes ≡ some b
        → scan.prog_type_hint ≡ infer_prog_type_from_section name
        → Seen i scan

  -- A section that leaves both variables.
  passes :
      {i : ℕ} {scan next : Scan}
      → Seen i scan
      → (scan.prog_bytes ≡ none → NoProgram i)
      → next.prog_bytes ≡ scan.prog_bytes
      → next.prog_type_hint ≡ scan.prog_type_hint
      → Seen (suc i) next
  passes (nothing e all) none_here b t =
      nothing (b ∙ e) (below_suc {P = NoProgram} all (none_here e))
  passes (found lt p all e h) none_here b t = found (omega arith) p all (b ∙ e) (t ∙ h)

  names :
      {i : ℕ} {name name' : Text} {b : Bytes}
      → read_cstr shstrtab (header i).sh_name_idx ≡ ok name
      → IsProgram i name' b
      → name ≡ name'
  names h p = ok-injective (sym h ∙ p.named)

  none_before :
      {i : ℕ} {scan : Scan}
      → Seen i scan
      → is_none scan.prog_bytes ≡ true
      → (j : ℕ) → j < i
      → NoProgram j
  none_before (nothing e all) h = all
  none_before {scan = scan} (found lt p all e t) h = absurd (is_none-some scan.prog_bytes h e)

  module _ (i : ℕ) (name : Text) (scan : Scan) (kept : is_skipped (header i) ≡ false)
      (named : read_cstr shstrtab (header i).sh_name_idx ≡ ok name) where
    same_name : {name' : Text} {b : Bytes} → IsProgram i name' b → is_bpf_prog_section name ≡ true
    same_name p = subst (λ n. is_bpf_prog_section n ≡ true) (sym (names named p)) p.known

    hit :
        Seen i scan
        → is_none scan.prog_bytes ≡ true
        → is_bpf_prog_section name ≡ true
        → (o : Option Bytes) → section_bytes image (header i) ≡ o
        → Seen
            (suc i)
            (record scan { prog_bytes = o; prog_type_hint = infer_prog_type_from_section name })
    hit seen free known none e = nothing refl (
        below_suc {P = NoProgram} (none_before seen free) (λ _ b p. none-some (sym e ∙ p.contents)))
    hit seen free known (some b) e =
        found {k = i} (omega arith)
          (record { kept = kept; named = named; known = known; contents = e })
          (none_before seen free) refl refl

    by_name :
        Seen i scan
        → (l p : Bool) → (name == text "license") ≡ l
        → (is_none scan.prog_bytes && is_bpf_prog_section name) ≡ p
        → (license' : Text)
        → Seen (suc i) (
            if l
            then record scan { license = license' }
            else if p
            then record scan {
              prog_bytes = section_bytes image (header i);
              prog_type_hint = infer_prog_type_from_section name;
            }
            else scan)
    by_name seen true p e f l =
        passes seen
          (λ _ _ _ q. license-not_program (
            subst (λ n. is_bpf_prog_section n ≡ true) ((eq_iff name (text "license")).0 e)
              (same_name q)))
          refl refl
    by_name seen false true e f l =
        hit seen (&&_true _ _ f).0 (&&_true _ _ f).1 (section_bytes image (header i)) refl
    by_name seen false false e f l =
        passes seen (λ g _ _ q. not_both _ _ f g (same_name q)) refl refl

    take_section-Seen : Seen i scan → Seen (suc i) (take_section image (header i) name scan)
    unfolding take_section
    take_section-Seen seen = by_name seen _ _ refl refl _

  after_name :
      (i : ℕ) (scan next : Scan)
      → Seen i scan
      → is_skipped (header i) ≡ false
      → (r : Result ElfError Text) → read_cstr shstrtab (header i).sh_name_idx ≡ r
      → with_name (λ name. take_section image (header i) name scan) r ≡ ok next
      → Seen (suc i) next
  after_name i scan next seen f (ok name) e h =
      subst (Seen (suc i)) (ok-injective h) (take_section-Seen i name scan f e seen)
  after_name i scan next seen f (err e) q h = cc

  after_skip :
      (i : ℕ) (scan next : Scan)
      → Seen i scan
      → (skipped : Bool) → is_skipped (header i) ≡ skipped
      → (if skipped
          then ok scan
          else with_name
              (λ name. take_section image (header i) name scan)
              (read_cstr shstrtab (header i).sh_name_idx))
        ≡ ok next
      → Seen (suc i) next
  after_skip i scan next seen true e h =
      subst (Seen (suc i)) (ok-injective h)
        (passes seen (λ _ _ _ p. true-false (sym e ∙ p.kept)) refl refl)
  after_skip i scan next seen false e h = after_name i scan next seen e _ refl h

  scan_section-Seen :
      (i : ℕ) (scan next : Scan)
      → Seen i scan
      → scan_section image shstrtab (header i) scan ≡ ok next
      → Seen (suc i) next
  unfolding scan_section
  scan_section-Seen i scan next seen h = after_skip i scan next seen _ refl h

  abbrev pub Reached : ℕ → Scan → Type 0
  Reached bound last = (k : ℕ) × (k ≤ bound) × Seen k last

  next_round-Seen :
      (n i : ℕ) (scan last : Scan)
      → Seen i scan
      → (rest : Scan → Result ElfError Scan)
      → ((next : Scan) → Seen (suc i) next → rest next ≡ ok last → Reached (n + suc i) last)
      → (ends : Bool) (r : Result ElfError Scan) → scan_section image shstrtab (header i) scan ≡ r
      → next_round ends r scan rest ≡ ok last
      → Reached (suc n + i) last
  next_round-Seen n i scan last seen rest h true r e g =
      (i, omega arith, subst (Seen i) (ok-injective g) seen)
  next_round-Seen n i scan last seen rest h false (ok next) e g =
      let (k, le, s) = h next (scan_section-Seen i scan next seen e) g in (k, omega arith, s)
  next_round-Seen n i scan last seen rest h false (err _) e g = cc

  pub scan_sections-Seen :
      (n i : ℕ) (scan last : Scan)
      → Seen i scan
      → scan_sections image shstrtab elf n i scan ≡ ok last
      → Reached (n + i) last
  unfolding scan_sections
  scan_sections-Seen zero i scan last seen h =
      (i, omega arith, subst (Seen i) (ok-injective h) seen)
  scan_sections-Seen (suc n) i scan last seen h =
      next_round-Seen n i scan last seen _ (λ next s g. scan_sections-Seen n (suc i) next last s g)
        _ _ refl h
