-- ===== src/Os/Effects.antt =====
-- What each call leaves behind, whether it succeeds or fails.
use fastenv.Base.{
  ap, inl, inr, is_prefix, any, not, ◌&&◌, Text, Bool, true, false, ◌||◌, List, [], ◌∷◌, ◌++◌, map,
  filter, contains, ◌==◌, eq_iff, eq_refl, nat_Eq, list_Eq, some, Outcome, Outcome-if, returned,
  raised, Option, none, Bool-cases, ◌≡◌, refl, ◌≢◌, ◌∙◌, arith,
}
use fastenv.Os.{
  remove_dir_all, remove_dir, create_dir_all, mount, unmount, read_mounts, remounted, Call, World,
  Platform, MountRequest, exists, create_dirs, remove_tree, remove_empty, is_mounted, sys_mount,
  sys_unmount,
}
use fastenv.Os.Paths.{FilePath, inits}
use fastenv.Os.Mounts.{is_listed}

-- The registry is as it was.
abbrev pub SameRegistry : World → World → Type 0
SameRegistry w w' = w'.registry_json ≡ w.registry_json

-- /proc/mounts is as it was.
abbrev pub SameMounts : World → World → Type 0
SameMounts w w' = w'.proc_mounts ≡ w.proc_mounts

-- The registry is as it was, and what existed still exists.
pub record Kept (w w' : World) : Type 0 where
  pub registry : w'.registry_json ≡ w.registry_json
  pub grows : (p : FilePath) → exists w p ≡ true → exists w' p ≡ true

pub Kept-refl : (w : World) → Kept w w
Kept-refl w = record { registry = refl; grows = λ p h. h }

pub Kept-trans : {u v w : World} → Kept u v → Kept v w → Kept u w
Kept-trans a b = record {
  registry = b.registry ∙ a.registry;
  grows = λ p h. b.grows p (a.grows p h);
}

pub Kept-of_eq : {v w : World} → w ≡ v → Kept v w
Kept-of_eq {v} {w} e = rw e (Kept-refl v)

contains-append :
    (ps qs : List FilePath) (p : FilePath)
    → contains (ps ++ qs) p ≡ (contains ps p || contains qs p)
contains-append [] qs p = refl
contains-append (x ∷ ps) qs p = ground (arith, contains-append ps qs p)

pub contains-append_right :
    (ps qs : List FilePath) (p : FilePath) → contains qs p ≡ true → contains (ps ++ qs) p ≡ true
contains-append_right ps qs p h = ground (arith, contains-append ps qs p)

contains-append_left :
    (ps qs : List FilePath) (p : FilePath) → contains ps p ≡ true → contains (ps ++ qs) p ≡ true
contains-append_left ps qs p h = ground (arith, contains-append ps qs p)

contains-map_cons :
    (s : Text) (ps : List FilePath) (p : FilePath)
    → contains ps p ≡ true
    → contains (map (◌∷◌ s) ps) (s ∷ p) ≡ true
contains-map_cons s [] p h = h
contains-map_cons s (q ∷ ps) p h =
    ground (arith, contains-map_cons s ps p, eq_iff q p, eq_iff (s ∷ q) (s ∷ p))

-- A path is among those that `create_dir_all` makes for it.
pub inits_self : (s : Text) (p : FilePath) → contains (inits (s ∷ p)) (s ∷ p) ≡ true
inits_self s [] = ground (arith, eq_refl (s ∷ []))
inits_self s (t ∷ p) =
    contains-append_right ((s ∷ []) ∷ []) (map (◌∷◌ s) (inits (t ∷ p))) (s ∷ t ∷ p)
      (contains-map_cons s (inits (t ∷ p)) (t ∷ p) (inits_self t p))

-- A state with more paths.
with_paths : (w : World) (ps : List FilePath) → Kept w (record w { paths = ps ++ w.paths })
with_paths w ps = record { registry = refl; grows = λ p. contains-append_right ps w.paths p }

module _ (os : Platform) where
  create_dirs_effect :
      (s : Text) (p : FilePath) (w : World)
      → Outcome
          (λ _ w'. Kept w w' × (exists w' (s ∷ p) ≡ true))
          (λ _ w'. SameRegistry w w')
          (create_dirs os (s ∷ p) w)
  unfolding create_dirs
  create_dirs_effect s p w =
      Outcome-if (os.fails (create_dir_all (s ∷ p))) (λ _. raised refl)
        λ _. returned (
          with_paths w (inits (s ∷ p)),
          contains-append_left (inits (s ∷ p)) w.paths (s ∷ p) (inits_self s p),
        )

  pub create_dirs-Kept :
      (p : FilePath) (w : World)
      → Outcome
          (λ _ w'. Kept w w')
          (λ c w'. SameRegistry w w' × (os.fails c ≡ true))
          (create_dirs os p w)
  unfolding create_dirs
  create_dirs-Kept p w =
      Outcome-if (os.fails (create_dir_all p)) (λ h. raised (refl, h))
        (λ _. returned (with_paths w (inits p)))

  pub create_dirs_makes :
      (p : FilePath) (w : World)
      → p ≢ []
      → Outcome
          (λ _ w'. Kept w w' × (exists w' p ≡ true))
          (λ _ w'. SameRegistry w w')
          (create_dirs os p w)
  create_dirs_makes [] w ne = absurd (ne refl)
  create_dirs_makes (s ∷ p) w ne = create_dirs_effect s p w

  remounted_effect :
      (c : Call) (o : Option Text) (w : World)
      → Outcome
          (λ _ w'. Kept w w' × (o ≡ some w'.proc_mounts))
          (λ _ w'. SameRegistry w w')
          (remounted os c o w)
  remounted_effect c none w = raised refl
  remounted_effect c (some mounts) w = returned (record { registry = refl; grows = λ p h. h }, refl)

  pub sys_mount_effect :
      (r : MountRequest) (w : World)
      → Outcome
          (λ _ w'. Kept w w' × (os.mount r w.proc_mounts ≡ some w'.proc_mounts))
          (λ _ w'. SameRegistry w w')
          (sys_mount os r w)
  unfolding sys_mount
  sys_mount_effect r w = remounted_effect (mount r.target) (os.mount r w.proc_mounts) w

  pub sys_unmount_effect :
      (p : FilePath) (w : World)
      → Outcome
          (λ _ w'. Kept w w' × (os.unmount p w.proc_mounts ≡ some w'.proc_mounts))
          (λ _ w'. SameRegistry w w')
          (sys_unmount os p w)
  unfolding sys_unmount
  sys_unmount_effect p w = remounted_effect (unmount p) (os.unmount p w.proc_mounts) w

  pub is_mounted_effect :
      (p : FilePath) (w : World)
      → Outcome
          (λ b w'. (w' ≡ w) × (b ≡ is_listed p w.proc_mounts))
          (λ c w'. (w' ≡ w) × (os.fails c ≡ true))
          (is_mounted os p w)
  unfolding is_mounted
  is_mounted_effect p w =
      Outcome-if (os.fails read_mounts) (λ h. raised (refl, h)) (λ _. returned (refl, refl))

-- The registry is as it was, and nothing new exists.
pub record Shrunk (w w' : World) : Type 0 where
  pub registry : w'.registry_json ≡ w.registry_json
  pub shrinks : (p : FilePath) → exists w p ≡ false → exists w' p ≡ false

pub Shrunk-of_same :
    {w w' : World} → w'.registry_json ≡ w.registry_json → w'.paths ≡ w.paths → Shrunk w w'
Shrunk-of_same {w} {w'} r e = record {
  registry = r;
  shrinks = λ p h. ap (λ ps. contains ps p) e ∙ h;
}

pub Shrunk-trans : {u v w : World} → Shrunk u v → Shrunk v w → Shrunk u w
Shrunk-trans a b = record {
  registry = b.registry ∙ a.registry;
  shrinks = λ p h. b.shrinks p (a.shrinks p h);
}

contains-filter :
    (keep : FilePath → Bool) (ps : List FilePath) (p : FilePath)
    → contains ps p ≡ false
    → contains (filter keep ps) p ≡ false
contains-filter keep [] p h = refl
contains-filter keep (x ∷ ps) p h = ground (arith, contains-filter keep ps p)

contains-filtered :
    (keep : FilePath → Bool) (ps : List FilePath) (p : FilePath)
    → keep p ≡ false
    → contains (filter keep ps) p ≡ false
contains-filtered keep [] p h = refl
contains-filtered keep (x ∷ ps) p h = elim (Bool-cases (x == p)) [
  | inl same ↦ rw ((eq_iff x p).0 same, h) (contains-filtered keep ps p h)
  | inr other ↦ ground (arith, contains-filtered keep ps p h)
]

is_prefix_refl : (p : FilePath) → is_prefix p p ≡ true
is_prefix_refl [] = refl
is_prefix_refl (s ∷ p) = ground (arith, is_prefix_refl p, eq_refl s)

with_fewer :
    (keep : FilePath → Bool) (w : World) → Shrunk w (record w { paths = filter keep w.paths })
with_fewer keep w = record { registry = refl; shrinks = λ p. contains-filter keep w.paths p }

module _ (os : Platform) where
  pub remove_tree_effect :
      (p : FilePath) (w : World)
      → exists w p ≡ true
      → Outcome
          (λ _ w'. Shrunk w w' × (exists w' p ≡ false))
          (λ c w'. Shrunk w w' × (os.fails c ≡ true))
          (remove_tree os p w)
  unfolding remove_tree
  remove_tree_effect p w there = rw there (
      Outcome-if (os.fails (remove_dir_all p)) (λ h. raised (with_fewer _ w, h))
        λ _.
          returned
            (with_fewer _ w, contains-filtered _ w.paths p (ground (arith, is_prefix_refl p))))

  pub remove_empty-Shrunk : (p : FilePath) (w : World) → Shrunk w (remove_empty os p w).1
  unfolding remove_empty
  remove_empty-Shrunk p w =
      elim (Bool-cases
        (os.fails (remove_dir p) || any (λ q. is_prefix p q && not (q == p)) w.paths)) [
          | inl refused ↦ rw refused (Shrunk-of_same refl refl)
          | inr done ↦ rw done (with_fewer _ w)
        ]

  pub remove_empty_effect :
      (p : FilePath) (w : World)
      → Outcome
          (λ _ w'. SameRegistry w w' × SameMounts w w' × (exists w' p ≡ false))
          (λ _ w'. SameRegistry w w')
          (remove_empty os p w)
  unfolding remove_empty
  remove_empty_effect p w =
      Outcome-if (os.fails (remove_dir p) || any (λ q. is_prefix p q && not (q == p)) w.paths)
        (λ _. raised refl)
        (λ _. returned (refl, refl, contains-filtered _ w.paths p (ground (arith, eq_refl p))))

  -- The calls on files leave the mounts.
  pub create_dirs-SameMounts : (p : FilePath) (w : World) → SameMounts w (create_dirs os p w).1
  unfolding create_dirs
  create_dirs-SameMounts p w = ground arith

  pub remove_tree-SameMounts : (p : FilePath) (w : World) → SameMounts w (remove_tree os p w).1
  unfolding remove_tree
  remove_tree-SameMounts p w = ground arith

  pub remove_empty-SameMounts : (p : FilePath) (w : World) → SameMounts w (remove_empty os p w).1
  unfolding remove_empty
  remove_empty-SameMounts p w = ground arith
