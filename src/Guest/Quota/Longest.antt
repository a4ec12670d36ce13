-- ===== src/Guest/Quota/Longest.antt =====
-- The mount probe of src/quota.rs, against the lines of /proc/mounts.
use fastenv.Base.{
  ℕ, ◌≤◌, Text, true, List, [], ◌∷◌, All, leb, nat_Eq, list_Eq, Option, none, some, ◌≡◌, ◌⊎◌, inl,
  inr, refl, sym, subst, ◌∙◌, arith, Bool-cases,
}
use fastenv.Os.Paths.{FilePath}
use fastenv.Os.Mounts.{lines, split_whitespace}
use fastenv.Guest.Quota.{
  Best, covers, byte_len, consider, scan_mounts, mount_fields, has_option, unwrap_or_false,
  parse_proc_mounts_has_prjquota,
}

-- A mount point that covers the root is no longer than the best.
abbrev pub IsBound : FilePath → ℕ → Option (Text × Text) → Type 0
IsBound root len none = Unit
IsBound root len (some (mountpoint, options)) =
    covers root mountpoint ≡ true → byte_len mountpoint ≤ len

-- The line is of a mount that covers the root, of the best's length and with its answer.
abbrev pub IsOf : FilePath → Best → Option (Text × Text) → Type 0
IsOf root best none = ⊥
IsOf root best (some (mountpoint, options)) =
    (covers root mountpoint ≡ true)
    × ((byte_len mountpoint ≡ best.best_len) × (best.best_mount ≡ some (has_option options)))

abbrev pub fields_of : Text → Option (Text × Text)
fields_of line = mount_fields (split_whitespace line)

-- Some line is the best's.
abbrev pub IsFound : FilePath → Best → List Text → Type 0
IsFound root best [] = ⊥
IsFound root best (line ∷ rest) = IsOf root best (fields_of line) ⊎ IsFound root best rest

module _ (root : FilePath) where
  consider-cases :
      (best : Best) (f : Option (Text × Text))
      → (best.best_len ≤ (consider root best f).best_len)
        × IsBound root (consider root best f).best_len f
        × ((consider root best f ≡ best) ⊎ IsOf root (consider root best f) f)
  unfolding consider
  consider-cases best none = (omega arith, tt, inl refl)
  consider-cases best (some (mountpoint, options)) = elim (Bool-cases (covers root mountpoint)) [
    | inr apart ↦ rw apart (omega arith, (λ e. cc), inl refl)
    | inl covered ↦ elim (Bool-cases (leb best.best_len (byte_len mountpoint))) [
      | inl longer ↦
          rw (covered, longer) (ground arith, (λ e. omega arith), inr (refl, (refl, refl)))
      | inr shorter ↦ rw (covered, shorter) (omega arith, (λ e. ground arith), inl refl)
    ]
  ]

  IsBound-grows : (m n : ℕ) (f : Option (Text × Text)) → m ≤ n → IsBound root m f → IsBound root n f
  IsBound-grows m n none h b = tt
  IsBound-grows m n (some (mountpoint, options)) h b = λ e. omega (arith, b e)

  scan_cases :
      (ls : List Text) (best : Best)
      → (best.best_len ≤ (scan_mounts root best ls).best_len)
        × All (λ line. IsBound root (scan_mounts root best ls).best_len (fields_of line)) ls
        × ((scan_mounts root best ls ≡ best) ⊎ IsFound root (scan_mounts root best ls) ls)
  unfolding scan_mounts
  scan_cases [] best = (omega arith, tt, inl refl)
  scan_cases (line ∷ rest) best =
      let next = consider root best (fields_of line) in
      let one = consider-cases best (fields_of line) in
      let more = scan_cases rest next in
      (
        omega (arith, one.0, more.0),
        (
          IsBound-grows next.best_len (scan_mounts root next rest).best_len (fields_of line) more.0
              one.1,
          more.1,
        ),
        found line rest best more.2 one.2,
      )
    where
      found :
          (line : Text) (rest : List Text) (best : Best)
          → (scan_mounts root (consider root best (fields_of line)) rest
              ≡ consider root best (fields_of line))
            ⊎ IsFound root (scan_mounts root (consider root best (fields_of line)) rest) rest
          → (consider root best (fields_of line) ≡ best)
            ⊎ IsOf root (consider root best (fields_of line)) (fields_of line)
          → (scan_mounts root (consider root best (fields_of line)) rest ≡ best)
            ⊎ (IsOf root
                  (scan_mounts root (consider root best (fields_of line)) rest)
                  (fields_of line)
                ⊎ IsFound root (scan_mounts root (consider root best (fields_of line)) rest) rest)
      found line rest best (inr later) first = inr (inr later)
      found line rest best (inl same) (inl kept) = inl (same ∙ kept)
      found line rest best (inl same) (inr here) =
          inr (inl (subst (λ b. IsOf root b (fields_of line)) (sym same) here))

  abbrev pub start : Best
  start = record { best_len = 0; best_mount = none }

  abbrev pub best_of : Text → Best
  best_of proc_mounts = scan_mounts root start (lines proc_mounts)

  -- The probe answers what the best mount of /proc/mounts says of prjquota, or false if there is
  -- none: no mount point that covers the root is longer than the best, and the best is that of a
  -- line which covers the root, unless none was chosen.
  pub parse_proc_mounts-longest :
      (proc_mounts : Text)
      → (parse_proc_mounts_has_prjquota proc_mounts root
          ≡ unwrap_or_false (best_of proc_mounts).best_mount)
        × All
            (λ line. IsBound root (best_of proc_mounts).best_len (fields_of line))
            (lines proc_mounts)
        × ((best_of proc_mounts ≡ start) ⊎ IsFound root (best_of proc_mounts) (lines proc_mounts))
  unfolding parse_proc_mounts_has_prjquota
  parse_proc_mounts-longest proc_mounts =
      let cases = scan_cases (lines proc_mounts) start in (refl, cases.1, cases.2)
