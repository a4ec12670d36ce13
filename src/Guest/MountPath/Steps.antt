-- ===== src/Guest/MountPath/Steps.antt =====
-- The steps of `mount_path` and `unmount_fork` in src/mount_path.rs: what each leaves behind.
use fastenv.Base.{
  subst, some-injective, Text, Bool, Option, none, some, ◌==◌, nat_Eq, list_Eq, if◌then◌else◌, true,
  false, inl, inr, Outcome, returned, raised, Outcome-bind, Outcome-map_err, Outcome-weaken,
  Outcome-if, Outcome-note, Keeps-map_err, ◌≡◌, ◌⊎◌, refl, ap, ◌∙◌, sym,
}
use fastenv.Schema.{ForkEntry}
use fastenv.Os.{World, Platform, exists}
use fastenv.Os.Paths.{FilePath, join}
use fastenv.Guest.Fork.Steps.{snoc-ne}
use fastenv.Os.Mounts.{is_listed}
use fastenv.Os.Effects.{
  SameMounts, create_dirs-SameMounts, SameRegistry, create_dirs_makes, is_mounted_effect,
  sys_mount_effect, sys_unmount_effect, remove_empty_effect,
}
use fastenv.Registry.View.{fork_in, base_in, doc_in, IsCodec, fork_at, base_at}
use fastenv.Registry.Crud.{ForkWrite, insert_fork_effect}
use fastenv.Guest.{CommandError}
use fastenv.Guest.Fork.{merged_of}
use fastenv.Guest.MountPath.{
  or_default, bind_request, active_mount, mount_anew, or_mount_anew, remove_mount_point,
  unmount_active,
}

-- The entry of the fork with another mount point, all else as before.
pub record Repointed (os : Platform) (key : Text) (entry : ForkEntry) (point : Option FilePath)
    (w w' : World) : Type 0 where
  pub forks :
      (j : Text)
      → fork_at os w' j
        ≡ (if key == j then some (record entry { merged_path = point }) else fork_at os w j)
  pub bases : (j : Text) → base_at os w' j ≡ base_at os w j

-- The fork was mounted already: its mount point is returned and nothing is changed.
pub record WasMounted (entry : ForkEntry) (point : FilePath) (w w' : World) : Type 0 where
  pub recorded : entry.merged_path ≡ some point
  pub listed : is_listed point w'.proc_mounts ≡ true
  pub same : SameRegistry w w'

-- The fork was mounted by this call: the recorded mount point, or the default one, is bound on the
-- default one.
pub record NowMounted (os : Platform) (root : FilePath) (key : Text) (entry : ForkEntry)
    (point : FilePath) (w w' : World) : Type 0 where
  pub default_point : point ≡ merged_of root key
  pub inactive : (p : FilePath) → entry.merged_path ≡ some p → is_listed p w.proc_mounts ≡ false
  pub is_there : exists w' (merged_of root key) ≡ true
  pub mounted :
      os.mount
        (bind_request (or_default (merged_of root key) entry.merged_path) (merged_of root key))
        w.proc_mounts
      ≡ some w'.proc_mounts
  pub repointed : Repointed os key entry (some (merged_of root key)) w w'

pub record Unmounted (os : Platform) (key : Text) (w w' : World) : Type 0 where
  pub entry : ForkEntry
  pub was_there : fork_at os w key ≡ some entry
  pub point : FilePath
  pub recorded : entry.merged_path ≡ some point
  pub listed : is_listed point w.proc_mounts ≡ true
  pub unmounted : os.unmount point w.proc_mounts ≡ some w'.proc_mounts
  pub point_gone : exists w' point ≡ false
  pub repointed : Repointed os key entry none w w'

pub same_file : {u v : World} → v ≡ u → SameRegistry u v
same_file h = ap (λ (x : World). x.registry_json) h

module _ (os : Platform) where
  -- What a mount point that is found to be active is.
  abbrev pub IsActive : Option FilePath → World → Option FilePath → Type 0
  IsActive recorded w none = (p : FilePath) → recorded ≡ some p → is_listed p w.proc_mounts ≡ false
  IsActive recorded w (some p) = (recorded ≡ some p) × (is_listed p w.proc_mounts ≡ true)

  IsActive-of :
      (p : FilePath) (b : Bool) (w : World)
      → b ≡ is_listed p w.proc_mounts
      → IsActive (some p) w (if b then some p else none)
  IsActive-of p true w h = (refl, sym h)
  IsActive-of p false w h =
      λ q e. subst (λ x. is_listed x w.proc_mounts ≡ false) (some-injective e) (sym h)

  pub active_mount_effect :
      (recorded : Option FilePath) (w : World)
      → Outcome {E = CommandError}
          (λ active w'. (w' ≡ w) × IsActive recorded w active)
          (λ _ w'. w' ≡ w)
          (active_mount os recorded w)
  unfolding active_mount
  active_mount_effect none w = returned (refl, λ p e. cc)
  active_mount_effect (some p) w =
      Outcome-bind _ _ _ (Outcome-map_err _ _ _ (is_mounted_effect os p w) (λ c s h. h.0))
        λ b w1 h. returned (h.0, IsActive-of p b w h.1)

  rewritten :
      {key : Text} {entry : ForkEntry} {point : Option FilePath} {u v w : World}
      → SameRegistry w u
      → ForkWrite os key (some (record entry { merged_path = point })) u v
      → Repointed os key entry point w v
  rewritten {key} {entry} {point} same write = record {
    forks = λ j.
        write.forks j
        ∙ ap
            (λ r.
              if key == j
              then some (record entry { merged_path = point })
              else fork_in j (doc_in os r))
            same;
    bases = λ j. write.bases j ∙ ap (λ r. base_in j (doc_in os r)) same;
  }

  module _ (codec : IsCodec os) (root : FilePath) (key : Text) (entry : ForkEntry) (w : World) where
    mount_anew_effect :
        IsActive entry.merged_path w none
        → Outcome
            (λ p w'. NowMounted os root key entry p w w')
            (λ _ w'. SameRegistry w w')
            (mount_anew os root key entry w)
    unfolding mount_anew join
    mount_anew_effect idle =
        Outcome-bind _ _ _
          (Outcome-note
            (Outcome-map_err _ _ _ (create_dirs_makes os (merged_of root key) w (snoc-ne _ _))
              (λ c s h. h))
            (Keeps-map_err (λ (x : World). x.proc_mounts) _ _
              (create_dirs-SameMounts os (merged_of root key)) w))
          λ _ w1 o1.
            let k1 = o1.0.0 in
            Outcome-bind _ _ _
              (Outcome-map_err _ _ _ (sys_mount_effect os _ w1) (λ c s h. h ∙ k1.registry))
              λ _ w2 h2.
                let k2 = h2.0.registry ∙ k1.registry in
                Outcome-bind _ _ _
                  (Outcome-map_err _ _ _ (insert_fork_effect os codec w2 key _)
                    (λ e s h. same_file h ∙ k2))
                  λ _ w3 write. returned (record {
                    default_point = refl;
                    inactive = idle;
                    is_there = rw write.paths (h2.0.grows _ o1.0.1);
                    mounted = ap (os.mount _) (sym o1.1) ∙ h2.1 ∙ ap some (sym write.mounts);
                    repointed = rewritten k2 write;
                  })

    pub or_mount_anew_effect :
        (active : Option FilePath)
        → IsActive entry.merged_path w active
        → Outcome
            (λ p w'. WasMounted entry p w w' ⊎ NowMounted os root key entry p w w')
            (λ _ w'. SameRegistry w w')
            (or_mount_anew os root key entry active w)
    or_mount_anew_effect none h = Outcome-weaken (mount_anew_effect h) (λ _ _ k. inr k) (λ _ _ k. k)
    or_mount_anew_effect (some p) h =
        returned (inl (record { recorded = h.0; listed = h.1; same = refl }))

  remove_mount_point_effect :
      (p : FilePath) (w : World)
      → Outcome {E = CommandError}
          (λ _ w'. SameRegistry w w' × SameMounts w w' × (exists w' p ≡ false))
          (λ _ w'. SameRegistry w w')
          (remove_mount_point os p w)
  unfolding remove_mount_point
  remove_mount_point_effect p w =
      Outcome-if (exists w p) (λ _. Outcome-map_err _ _ _ (remove_empty_effect os p w) (λ _ _ h. h))
        (λ gone. returned (refl, refl, gone))

  module _ (codec : IsCodec os) (key : Text) (entry : ForkEntry) (w : World) where
    pub unmount_active_effect :
        (active : Option FilePath)
        → fork_at os w key ≡ some entry
        → IsActive entry.merged_path w active
        → Outcome
            (λ _ w'. Unmounted os key w w')
            (λ _ w'. SameRegistry w w')
            (unmount_active os key entry active w)
    unfolding unmount_active
    unmount_active_effect none there h = raised refl
    unmount_active_effect (some p) there h =
        Outcome-bind _ _ _ (Outcome-map_err _ _ _ (sys_unmount_effect os p w) (λ c s h. h))
          λ _ w1 h1.
            Outcome-bind _ _ _
              (Outcome-weaken (remove_mount_point_effect p w1) (λ _ _ h. h)
                (λ e s h. h ∙ h1.0.registry))
              λ _ w2 h2.
                let k2 = h2.0 ∙ h1.0.registry in
                Outcome-map_err _ _ _
                  (Outcome-weaken (insert_fork_effect os codec w2 key _)
                    (λ _ w3 write. record {
                      entry = entry;
                      was_there = there;
                      point = p;
                      recorded = h.0;
                      listed = h.1;
                      unmounted = h1.1 ∙ ap some (sym (write.mounts ∙ h2.1));
                      point_gone = rw write.paths h2.2;
                      repointed = rewritten k2 write;
                    })
                    (λ e s h. same_file h ∙ k2))
                  (λ _ _ h. h)
