-- ===== src/Guest/Fork/Steps.antt =====
-- The steps of `fork_base` in src/fork.rs: what each leaves behind.
use fastenv.Base.{
  ℕ, Text, [], ◌∷◌, ◌++◌, Option, none, some, Result, ok, err, nat_Eq, list_Eq, true, false,
  Outcome, returned, raised, Outcome-bind, Outcome-map_err, Outcome-weaken, Outcome-if,
  Outcome-note, Keeps-bind, Keeps-map_err, ◌≡◌, ◌≢◌, refl, ◌∙◌, has_char,
}
use fastenv.Schema.{BaseEntry, ForkEntry, QuotaMode, soft, hard}
use fastenv.Os.{World, Platform, open_upper, set_project, exists}
use fastenv.Os.Paths.{FilePath, join}
use fastenv.Os.Effects.{
  SameMounts, create_dirs-SameMounts, SameRegistry, Kept, Kept-trans, create_dirs-Kept,
  create_dirs_makes, sys_mount_effect,
}
use fastenv.Registry.{RegistryError, open_registry_at, get_fork}
use fastenv.Registry.View.{fork_at}
use fastenv.Registry.Crud.{open_registry_at-SameMounts, get_fork-world, get_fork-missing}
use fastenv.Guest.Quota.{choose_quota_mode, has_prjquota, assign_project_quota, alloc_project_id}
use fastenv.Guest.Fork.{
  ensure_absent, absence, mount_overlay, create_fork_dirs, mount_data, upper_of, work_of, merged_of,
  overlay_request,
}

-- A fork with no limit is soft, and one with a limit is hard only where the mount has `prjquota`,
-- and there if the project can be set.
pub record ModeChecked (os : Platform) (root : FilePath) (fork_key : Text) (quota : Option ℕ)
    (mode : QuotaMode) (w : World) : Type 0 where
  pub unlimited : quota ≡ none → mode ≡ soft
  pub covered : mode ≡ hard → has_prjquota os root w ≡ true
  pub hard_where :
      (limit : ℕ)
      → quota ≡ some limit
      → has_prjquota os root w ≡ true
      → os.fails (set_project (upper_of root fork_key)) ≡ false
      → mode ≡ hard

pub snoc-ne : (p : FilePath) (s : Text) → p ++ s ∷ [] ≢ []
snoc-ne [] s h = cc
snoc-ne (x ∷ p) s h = cc

module _ (os : Platform) (root : FilePath) (fork_key : Text) where
  pub open_effect :
      (w : World)
      → Outcome
          (λ _ w'. Kept w w' × SameMounts w w')
          (λ _ w'. SameRegistry w w')
          (open_registry_at os root w)
  unfolding open_registry_at
  open_effect w =
      Outcome-note (Outcome-map_err _ _ _ (create_dirs-Kept os root w) (λ e s h. h.0))
        (open_registry_at-SameMounts os w root)

  pub ensure_absent_effect :
      (w : World)
      → Outcome
          (λ _ w'. (w' ≡ w) × (fork_at os w fork_key ≡ none))
          (λ _ w'. w' ≡ w)
          (ensure_absent os root fork_key w)
  unfolding ensure_absent
  ensure_absent_effect w =
      go (get_fork os fork_key w).0 (get_fork-world os w fork_key)
        (λ j. get_fork-missing os w fork_key j)
    where
      go :
          (r : Result RegistryError ForkEntry)
          → (get_fork os fork_key w).1 ≡ w
          → ((j : Text) → r ≡ err (RegistryError.not_found j) → fork_at os w fork_key ≡ none)
          → Outcome
              (λ _ w'. (w' ≡ w) × (fork_at os w fork_key ≡ none))
              (λ _ w'. w' ≡ w)
              (absence fork_key r, (get_fork os fork_key w).1)
      go (ok entry) same missing = raised same
      go (err (RegistryError.not_found j)) same missing = returned (same, missing j refl)
      go (err (RegistryError.io c)) same missing = raised same
      go (err RegistryError.json) same missing = raised same
      go (err RegistryError.persist) same missing = raised same

  -- The directories of the fork.
  pub record Made (w w' : World) : Type 0 where
    pub kept : Kept w w'
    pub upper : exists w' (upper_of root fork_key) ≡ true
    pub work : exists w' (work_of root fork_key) ≡ true

  Made-later : {w w' w'' : World} → Made w w' → Kept w' w'' → Made w w''
  Made-later m k = record {
    kept = Kept-trans m.kept k;
    upper = k.grows _ m.upper;
    work = k.grows _ m.work;
  }

  create_fork_dirs-SameMounts : (w : World) → SameMounts w (create_fork_dirs os root fork_key w).1
  unfolding create_fork_dirs
  create_fork_dirs-SameMounts =
      Keeps-bind mounts _ _ (Keeps-map_err mounts _ _ (create_dirs-SameMounts os _)) λ _.
        Keeps-bind mounts _ _ (Keeps-map_err mounts _ _ (create_dirs-SameMounts os _))
          λ _. Keeps-map_err mounts _ _ (create_dirs-SameMounts os _)
    where
      mounts : World → Text
      mounts w = w.proc_mounts

  create_fork_dirs-Made :
      (w : World)
      → Outcome
          (λ _ w'. Made w w')
          (λ _ w'. SameRegistry w w')
          (create_fork_dirs os root fork_key w)
  unfolding create_fork_dirs join
  create_fork_dirs-Made w =
      Outcome-bind _ _ _
        (Outcome-map_err _ _ _ (create_dirs_makes os _ w (snoc-ne _ _)) (λ e s h. h))
        λ _ w1 m1.
          Outcome-bind _ _ _
            (Outcome-map_err _ _ _ (create_dirs_makes os _ w1 (snoc-ne _ _))
              (λ e s h. h ∙ m1.0.registry))
            λ _ w2 m2.
              Outcome-weaken
                (Outcome-map_err _ _ _ (create_dirs-Kept os (merged_of root fork_key) w2)
                  (λ e s h. h.0 ∙ m2.0.registry ∙ m1.0.registry))
                (λ _ w3 k.
                  Made-later
                    (record { kept = Kept-trans m1.0 m2.0; upper = m2.0.grows _ m1.1; work = m2.1 })
                    k)
                (λ _ _ h. h)

  pub create_fork_dirs_effect :
      (w : World)
      → Outcome
          (λ _ w'. Made w w' × SameMounts w w')
          (λ _ w'. SameRegistry w w')
          (create_fork_dirs os root fork_key w)
  create_fork_dirs_effect w = Outcome-note (create_fork_dirs-Made w) (create_fork_dirs-SameMounts w)

  -- The overlay of the base and the fork's directories, as the kernel mounts it.
  abbrev pub IsOverlay : BaseEntry → Text → Text → Type 0
  IsOverlay base before after =
      os.mount
        (overlay_request (merged_of root fork_key)
          (mount_data base (upper_of root fork_key) (work_of root fork_key)))
        before
      ≡ some after

  pub mount_overlay_effect :
      (base : BaseEntry) (w : World)
      → Outcome
          (λ _ w'. Kept w w' × IsOverlay base w.proc_mounts w'.proc_mounts)
          (λ _ w'. SameRegistry w w')
          (mount_overlay os root base fork_key w)
  unfolding mount_overlay
  mount_overlay_effect base w =
      Outcome-if (has_char 0 (mount_data base (upper_of root fork_key) (work_of root fork_key)))
        (λ _. raised refl) (λ _. Outcome-map_err _ _ _ (sys_mount_effect os _ w) (λ e s h. h))

  pub has_prjquota_same :
      (w w' : World)
      → w'.proc_mounts ≡ w.proc_mounts
      → has_prjquota os root w' ≡ has_prjquota os root w
  unfolding has_prjquota
  has_prjquota_same w w' e = rw e

  assign_effect :
      (quota id : ℕ) (w : World)
      → has_prjquota os root w ≡ true
      → Outcome
          (λ mode w'. (w' ≡ w) × ModeChecked os root fork_key (some quota) mode w)
          (λ _ w'. w' ≡ w)
          (assign_project_quota os (upper_of root fork_key) id quota w)
  unfolding assign_project_quota
  assign_effect quota id w covered =
      Outcome-bind _ _ _
        (Outcome-map_err _ _ _
          (Outcome-if {P = λ _ w'. w' ≡ w} {Q = λ _ w'. w' ≡ w}
            (os.fails (open_upper (upper_of root fork_key))) (λ _. raised refl)
            (λ _. returned refl))
          (λ e s h. h))
        λ _ w1 same. returned (
          same,
          (record {
            unlimited = λ h. cc;
            covered = λ _. covered;
            hard_where = λ q e p f. rw f refl;
          }),
        )

  pub choose_quota_mode_effect :
      (quota : Option ℕ) (w : World)
      → Outcome
          (λ mode w'. (w' ≡ w) × ModeChecked os root fork_key quota mode w)
          (λ _ w'. w' ≡ w)
          (choose_quota_mode os root (upper_of root fork_key) fork_key quota w)
  unfolding choose_quota_mode
  choose_quota_mode_effect none w =
      returned
        (refl, (record { unlimited = λ _. refl; covered = λ h. cc; hard_where = λ q e p f. cc }))
  choose_quota_mode_effect (some q) w =
      Outcome-if (has_prjquota os root w) (assign_effect q (alloc_project_id fork_key) w) (λ apart.
        returned
          (refl, (record { unlimited = λ h. cc; covered = λ h. cc; hard_where = λ q e p f. cc })))
