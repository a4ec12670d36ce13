-- ===== src/Guest/MountPath/Mounting.antt =====
-- `mount_path` and `unmount_fork` of src/mount_path.rs: what each leaves behind.
use fastenv.Base.{
  subst, ◌>>=◌, ◌>>◌, Text, Option, some, ◌==◌, nat_Eq, list_Eq, if◌then◌else◌, inl, inr, Outcome,
  Outcome-bind, Outcome-map_err, Outcome-weaken, Outcome-note, true, false, ◌≡◌, ◌⊎◌, ap, ◌∙◌, sym,
  map_err,
}
use fastenv.Schema.{ForkEntry}
use fastenv.Os.{World, Platform}
use fastenv.Os.Paths.{FilePath}
use fastenv.Os.Effects.{SameRegistry, SameMounts}
use fastenv.Os.Mounts.{is_listed}
use fastenv.Registry.{open_registry_at, get_fork}
use fastenv.Registry.View.{fork_in, base_in, doc_in, IsCodec, fork_at}
use fastenv.Registry.Crud.{open_registry_effect, open_registry_at-SameMounts, get_fork_effect}
use fastenv.Guest.{Command, registry, renamed}
use fastenv.Guest.MountPath.{mount_path, unmount_fork}
use fastenv.Guest.MountPath.Steps.{
  Repointed, WasMounted, NowMounted, Unmounted, IsActive, active_mount_effect, or_mount_anew_effect,
  unmount_active_effect, same_file,
}

pub record Shown (os : Platform) (root : FilePath) (key : Text) (point : FilePath) (w w' : World)
    : Type 0 where
  pub entry : ForkEntry
  pub was_there : fork_at os w key ≡ some entry
  pub way : WasMounted entry point w w' ⊎ NowMounted os root key entry point w w'

module _ (os : Platform) where
  module _ (codec : IsCodec os) (key : Text) (root : FilePath) (w : World) where
    -- What a command that opens the registry and finds the fork goes on from.
    opened :
        {A : Type 0} (f : ForkEntry → Command A) {P : A → World → Type 0}
        → ((entry : ForkEntry) (v : World)
            → SameRegistry w v
            → SameMounts w v
            → fork_at os w key ≡ some entry
            → Outcome P (λ _ w'. SameRegistry v w') (f entry v))
        → Outcome P
            (λ _ w'. SameRegistry w w')
            (((map_err registry (open_registry_at os root))
                >> (map_err (renamed key) (get_fork os key) >>= f))
              w)
    opened f rest =
        Outcome-bind _ _ _
          (Outcome-map_err _ _ _
            (Outcome-note (open_registry_effect os w root) (open_registry_at-SameMounts os w root))
            (λ e s h. h))
          λ _ w1 o1.
            let k1 = o1.0 in
            Outcome-bind _ _ _
              (Outcome-map_err _ _ _ (get_fork_effect os w1 key) (λ e s h. same_file h ∙ k1))
              λ entry w2 h2.
                let k2 = same_file h2.0 ∙ k1 in
                Outcome-weaken
                  (rest entry w2 k2 (ap (λ (x : World). x.proc_mounts) h2.0 ∙ o1.1)
                    (ap (λ r. fork_in key (doc_in os r)) (sym k1) ∙ h2.1))
                  (λ _ _ p. p) (λ _ _ h. h ∙ k2)

    same_mounts : {u v : World} → v ≡ u → SameMounts u v
    same_mounts e = ap (λ (x : World). x.proc_mounts) e

    -- Repointed from a later state with the same registry.
    Repointed-from :
        {entry : ForkEntry} {point : Option FilePath} {v w' : World}
        → SameRegistry w v
        → Repointed os key entry point v w'
        → Repointed os key entry point w w'
    Repointed-from {entry} {point} same r = record {
      forks = λ j.
          r.forks j
          ∙ ap
              (λ t.
                if key == j
                then some (record entry { merged_path = point })
                else fork_in j (doc_in os t))
              same;
      bases = λ j. r.bases j ∙ ap (λ t. base_in j (doc_in os t)) same;
    }

    shown :
        {entry : ForkEntry} {p : FilePath} {v w' : World}
        → SameRegistry w v
        → SameMounts w v
        → fork_at os w key ≡ some entry
        → WasMounted entry p v w' ⊎ NowMounted os root key entry p v w'
        → Shown os root key p w w'
    shown {entry} same mounts there (inl was) = record {
      entry = entry;
      was_there = there;
      way = inl (record { recorded = was.recorded; listed = was.listed; same = was.same ∙ same });
    }
    shown {entry} same mounts there (inr now) = record {
      entry = entry;
      was_there = there;
      way = inr (record {
        default_point = now.default_point;
        inactive = λ q e. subst (λ t. is_listed q t ≡ false) mounts (now.inactive q e);
        is_there = now.is_there;
        mounted = ap (os.mount _) (sym mounts) ∙ now.mounted;
        repointed = Repointed-from same now.repointed;
      });
    }

    -- If serde_json reads what it printed and the last buffer of a write to registry.json reaches
    -- the file: a mount_path that succeeds found the fork, and either returns the recorded mount
    -- point, which is mounted, and leaves registry.json as it was, or found no recorded mount point
    -- that is mounted, has bound the recorded one (or, without one, the default one) on the default
    -- one, which exists, returns that, and has recorded it and changed nothing else in
    -- registry.json; one that fails has left registry.json as it was.
    pub mount_path_effect :
        Outcome
          (λ p w'. Shown os root key p w w')
          (λ _ w'. SameRegistry w w')
          (mount_path os key root w)
    unfolding mount_path
    mount_path_effect = opened _ λ entry v same mounts there.
        Outcome-bind _ _ _
          (Outcome-weaken (active_mount_effect os entry.merged_path v) (λ _ _ h. h)
            (λ e s h. same_file h))
          λ active v1 h.
            Outcome-weaken
              (or_mount_anew_effect os codec root key entry v1 active
                (subst (λ x. IsActive os entry.merged_path x active) (sym h.0) h.1))
              (λ p w' way. shown (same_file h.0 ∙ same) (same_mounts h.0 ∙ mounts) there way)
              (λ e w' k. k ∙ same_file h.0)

    -- If serde_json reads what it printed and the last buffer of a write to registry.json reaches
    -- the file: an unmount_fork that succeeds found the fork with a mount point that /proc/mounts
    -- lists, has unmounted that and removed it, and has cleared it from the entry and changed
    -- nothing else in registry.json; one that fails has left registry.json as it was.
    pub unmount_fork_effect :
        Outcome
          (λ _ w'. Unmounted os key w w')
          (λ _ w'. SameRegistry w w')
          (unmount_fork os key root w)
    unfolding unmount_fork
    unmount_fork_effect = opened _ λ entry v same mounts there.
        Outcome-bind _ _ _
          (Outcome-weaken (active_mount_effect os entry.merged_path v) (λ _ _ h. h)
            (λ e s h. same_file h))
          λ active v1 h.
            let same1 = same_file h.0 ∙ same in
            let mounts1 = same_mounts h.0 ∙ mounts in
            Outcome-weaken
              (unmount_active_effect os codec key entry v1 active
                (ap (λ r. fork_in key (doc_in os r)) same1 ∙ there)
                (subst (λ x. IsActive os entry.merged_path x active) (sym h.0) h.1))
              (λ _ w' done. record {
                entry = done.entry;
                was_there = ap (λ r. fork_in key (doc_in os r)) (sym same1) ∙ done.was_there;
                point = done.point;
                recorded = done.recorded;
                listed = subst (λ t. is_listed done.point t ≡ true) mounts1 done.listed;
                unmounted = ap (os.unmount _) (sym mounts1) ∙ done.unmounted;
                point_gone = done.point_gone;
                repointed = Repointed-from same1 done.repointed;
              })
              (λ e w' k. k ∙ same_file h.0)
