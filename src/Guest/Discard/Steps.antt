-- ===== src/Guest/Discard/Steps.antt =====
-- The steps of `discard_fork` in src/discard.rs: what each leaves behind.
use fastenv.Base.{
  Text, Bool, Option, none, some, ok, nat_Eq, list_Eq, if◌then◌else◌, true, false, Bool-cases,
  Option-cases, inl, inr, Outcome, returned, raised, Outcome-bind, Outcome-map_err, Outcome-weaken,
  Outcome-if, Outcome-note, map_err, arith, Outcome-ok, Outcome-err, Outcome-intro, ◌≡◌, ◌≢◌, refl,
  ap, ◌∙◌, sym,
}
use fastenv.Schema.{ForkEntry}
use fastenv.Os.{World, Platform, exists, sys_unmount}
use fastenv.Os.Paths.{FilePath}
use fastenv.Os.Mounts.{is_listed}
use fastenv.Os.Effects.{
  SameMounts, remove_tree-SameMounts, remove_empty-SameMounts, SameRegistry, Shrunk, Shrunk-of_same,
  create_dirs-Kept, is_mounted_effect, remove_tree_effect, remove_empty-Shrunk,
}
use fastenv.Registry.{open_registry_at, get_fork, remove_fork}
use fastenv.Registry.View.{IsCodec, IsHealthy, fork_at}
use fastenv.Registry.Crud.{
  open_registry_at-SameMounts, ForkWrite, remove_fork_effect, get_fork-world, get_fork-ok,
  get_fork-healthy, remove_fork-healthy,
}
use fastenv.Guest.{CommandError, run}
use fastenv.Guest.Discard.{unmount_if_mounted, remove_if_exists, remove_best_effort, remove_merged}

module _ (os : Platform) where
  remove_if_exists-SameMounts :
      (p : FilePath) (w : World) → SameMounts w (remove_if_exists os p w).1
  unfolding remove_if_exists map_err
  remove_if_exists-SameMounts p w = ground (arith, remove_tree-SameMounts os p w)

  remove_best_effort-SameMounts :
      (p : FilePath) (w : World) → SameMounts w (remove_best_effort os p w).1
  unfolding remove_best_effort
  remove_best_effort-SameMounts p w = ground (arith, remove_empty-SameMounts os p w)

  remove_if_exists_gone :
      (p : FilePath) (w : World)
      → Outcome
          (λ _ w'. Shrunk w w' × (exists w' p ≡ false))
          (λ _ w'. Shrunk w w' × ¬ (IsHealthy os))
          (remove_if_exists os p w)
  unfolding remove_if_exists
  remove_if_exists_gone p w = elim (Bool-cases (exists w p)) [
    | inl there ↦ rw there (
        Outcome-map_err _ _ _ (remove_tree_effect os p w there)
          (λ c s h. (h.0, λ healthy. cc (healthy.calls c, h.1))))
    | inr gone ↦ rw gone (returned (Shrunk-of_same refl refl, gone))
  ]

  pub remove_if_exists_effect :
      (p : FilePath) (w : World)
      → Outcome
          (λ _ w'. (Shrunk w w' × (exists w' p ≡ false)) × SameMounts w w')
          (λ _ w'. Shrunk w w' × ¬ (IsHealthy os))
          (remove_if_exists os p w)
  remove_if_exists_effect p w =
      Outcome-note (remove_if_exists_gone p w) (remove_if_exists-SameMounts p w)

  remove_best_effort-Shrunk :
      (p : FilePath) (w : World)
      → Outcome {E = CommandError} (λ _ w'. Shrunk w w') (λ _ w'. ⊥) (remove_best_effort os p w)
  unfolding remove_best_effort
  remove_best_effort-Shrunk p w =
      Outcome-if (exists w p) (λ _. returned (remove_empty-Shrunk os p w))
        (λ _. returned (Shrunk-of_same refl refl))

  pub remove_best_effort_effect :
      (p : FilePath) (w : World)
      → Outcome {E = CommandError}
          (λ _ w'. Shrunk w w' × SameMounts w w')
          (λ _ w'. ⊥)
          (remove_best_effort os p w)
  remove_best_effort_effect p w =
      Outcome-note (remove_best_effort-Shrunk p w) (remove_best_effort-SameMounts p w)

  pub remove_merged_effect :
      (o : Option FilePath) (w : World)
      → Outcome {E = CommandError}
          (λ _ w'. Shrunk w w' × SameMounts w w')
          (λ _ w'. ⊥)
          (remove_merged os o w)
  unfolding remove_merged
  remove_merged_effect none w = returned (Shrunk-of_same refl refl, refl)
  remove_merged_effect (some p) w = remove_best_effort_effect p w

  abbrev pub Unmounts : Type 0
  Unmounts = (p : FilePath) (mounts : Text) → is_listed p mounts ≡ true → os.unmount p mounts ≢ none

  -- The mount point is unmounted if it is listed, and then /proc/mounts is what the kernel makes
  -- of it; otherwise nothing is.
  abbrev pub Released : Option FilePath → Text → Text → Type 0
  Released none before after = after ≡ before
  Released (some p) before after =
      (is_listed p before ≡ true → os.unmount p before ≡ some after)
      × (is_listed p before ≡ false → after ≡ before)

  unmounted_effect :
      (p : FilePath) (w : World)
      → is_listed p w.proc_mounts ≡ true
      → Outcome
          (λ _ w'. Shrunk w w' × (os.unmount p w.proc_mounts ≡ some w'.proc_mounts))
          (λ _ w'. SameRegistry w w' × ¬ Unmounts)
          (sys_unmount os p w)
  unfolding sys_unmount
  unmounted_effect p w listed = elim (Option-cases (os.unmount p w.proc_mounts)) [
    | inl refused ↦ rw refused (raised (refl, λ law. law p w.proc_mounts listed refused))
    | inr (mounts, done) ↦ rw done (returned (Shrunk-of_same refl refl, refl))
  ]

  unmount_listed :
      (p : FilePath) (b : Bool) {w w1 : World}
      → w1 ≡ w
      → b ≡ is_listed p w.proc_mounts
      → Outcome {E = CommandError}
          (λ _ w'. Shrunk w w' × Released (some p) w.proc_mounts w'.proc_mounts)
          (λ _ w'. SameRegistry w w' × ¬ (IsHealthy os × Unmounts))
          (if b then run (sys_unmount os p) w1 else (ok tt, w1))
  unmount_listed p b {w} same told = rw same (
      Outcome-if b
        (λ listed.
          Outcome-weaken
            (Outcome-map_err _ _ _ (unmounted_effect p w (sym told ∙ listed))
              (λ c s q. (q.0, λ ready. q.1 ready.1)))
            (λ _ _ k. (k.0, ((λ _. k.1), (λ unlisted. cc)))) (λ _ _ q. q))
        (λ unlisted. returned (Shrunk-of_same refl refl, ((λ listed. cc), (λ _. refl)))))

  pub unmount_if_mounted_effect :
      (o : Option FilePath) (w : World)
      → Outcome {E = CommandError}
          (λ _ w'. Shrunk w w' × Released o w.proc_mounts w'.proc_mounts)
          (λ _ w'. SameRegistry w w' × ¬ (IsHealthy os × Unmounts))
          (unmount_if_mounted os o w)
  unfolding unmount_if_mounted
  unmount_if_mounted_effect none w = returned (Shrunk-of_same refl refl, refl)
  unmount_if_mounted_effect (some p) w =
      Outcome-bind _ _ _
        (Outcome-map_err _ _ _ (is_mounted_effect os p w)
          (λ c s h. (ap (λ (x : World). x.registry_json) h.0, λ ready. cc (ready.0.calls c, h.1))))
        λ b w1 h. unmount_listed p b h.0 h.1

  opened :
      (root : FilePath) (w : World)
      → Outcome
          (λ _ w'. SameRegistry w w')
          (λ _ w'. SameRegistry w w' × ¬ (IsHealthy os))
          (open_registry_at os root w)
  unfolding open_registry_at
  opened root w =
      Outcome-map_err _ _ _
        (Outcome-weaken {Q' = λ c w'. SameRegistry w w' × (os.fails c ≡ true)}
          (create_dirs-Kept os root w) (λ _ _ k. k.registry) (λ _ _ h. h))
        (λ c s h. (h.0, λ healthy. cc (healthy.calls c, h.1)))

  pub open_effect :
      (root : FilePath) (w : World)
      → Outcome
          (λ _ w'. SameRegistry w w' × SameMounts w w')
          (λ _ w'. SameRegistry w w' × ¬ (IsHealthy os))
          (open_registry_at os root w)
  open_effect root w = Outcome-note (opened root w) (open_registry_at-SameMounts os w root)

  -- The fork is there, and no call fails.
  abbrev pub Findable : Text → World → Type 0
  Findable key w = IsHealthy os × ((entry : ForkEntry) × (fork_at os w key ≡ some entry))

  pub found_effect :
      (key : Text) (w : World)
      → Outcome
          (λ entry w'. (w' ≡ w) × (fork_at os w key ≡ some entry))
          (λ _ w'. (w' ≡ w) × ¬ (Findable key w))
          (get_fork os key w)
  found_effect key w =
      Outcome-intro _ (λ entry h. (get_fork-world os w key, get_fork-ok os w key h))
        λ e h.
          (get_fork-world os w key, λ ready. cc (h, get_fork-healthy os w key ready.0 ready.1.1))

  pub removed_effect :
      (codec : IsCodec os) (key : Text) (w : World)
      → Outcome
          (λ _ w'. ForkWrite os key none w w')
          (λ _ w'. (w' ≡ w) × ¬ (Findable key w))
          (remove_fork os key w)
  removed_effect codec key w =
      Outcome-intro _ (λ a h. Outcome-ok (remove_fork_effect os codec w key) h)
        λ e h. (
          Outcome-err (remove_fork_effect os codec w key) h,
          λ ready. cc (h, remove_fork-healthy os w key ready.0 ready.1.1),
        )
