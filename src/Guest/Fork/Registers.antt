-- ===== src/Guest/Fork/Registers.antt =====
-- `fork_base` of src/fork.rs: what a fork leaves behind.
use fastenv.Base.{
  [], ℕ, Text, Option, none, some, ◌==◌, nat_Eq, list_Eq, if◌then◌else◌, true, Outcome,
  Outcome-bind, Outcome-map_err, Outcome-weaken, ◌≡◌, subst, ap, ◌∙◌, sym,
}
use fastenv.Schema.{BaseEntry, QuotaMode}
use fastenv.Os.{World, Platform, exists}
use fastenv.Os.Paths.{FilePath}
use fastenv.Os.Effects.{Kept-of_eq, SameMounts, SameRegistry, Kept, Kept-trans}
use fastenv.Registry.View.{fork_in, base_in, doc_in, IsCodec, fork_at, base_at}
use fastenv.Registry.Crud.{ForkWrite, insert_fork_effect, get_base_effect}
use fastenv.Guest.Fork.{merged_of, fork_base, fork_entry, upper_of, work_of}
use fastenv.Guest.Fork.Steps.{
  IsOverlay, ModeChecked, open_effect, ensure_absent_effect, create_fork_dirs_effect,
  mount_overlay_effect, has_prjquota_same, choose_quota_mode_effect, Made,
}

-- What `fork_base` has made when it returns `Ok`.
pub record Forked (os : Platform) (root : FilePath) (base_key fork_key : Text)
    (quota_bytes : Option ℕ) (now : Text) (w w' : World) : Type 0 where
  pub base : BaseEntry
  pub base_known : base_at os w base_key ≡ some base
  pub was_absent : fork_at os w fork_key ≡ none
  pub mode : QuotaMode
  pub mode_checked : ModeChecked os root fork_key quota_bytes mode w'
  pub forks :
      (j : Text)
      → fork_at os w' j ≡ (
          if fork_key == j
          then some (record {
            base_key = base_key;
            upper_path = upper_of root fork_key;
            work_path = work_of root fork_key;
            merged_path = some (merged_of root fork_key);
            quota_bytes = quota_bytes;
            quota_mode = mode;
            created_at = now;
            labels = [];
          })
          else fork_at os w j)
  pub bases : (j : Text) → base_at os w' j ≡ base_at os w j
  pub upper_exists : exists w' (upper_of root fork_key) ≡ true
  pub work_exists : exists w' (work_of root fork_key) ≡ true
  pub mounted : IsOverlay os root fork_key base w.proc_mounts w'.proc_mounts

module _ (os : Platform) (root : FilePath) (fork_key : Text) where
  module _ (codec : IsCodec os) (base_key : Text) (quota_bytes : Option ℕ) (now : Text)
      (w : World) where
    aborted : {v s : World} → Kept w v → s ≡ v → SameRegistry w s
    aborted k h = ap (λ (x : World). x.registry_json) h ∙ k.registry

    same_fork : {v : World} (j : Text) → Kept w v → fork_at os v j ≡ fork_at os w j
    same_fork j k = ap (λ r. fork_in j (doc_in os r)) k.registry

    same_base : {v : World} (j : Text) → Kept w v → base_at os v j ≡ base_at os w j
    same_base j k = ap (λ r. base_in j (doc_in os r)) k.registry

    -- The facts of the steps, put together after the entry is written.
    registered :
        (base : BaseEntry) (mode : QuotaMode) {w1 w2 w6 w7 : World}
        → Kept w w1
        → base_at os w1 base_key ≡ some base
        → Kept w w2
        → fork_at os w2 fork_key ≡ none
        → Made os root fork_key w w6
        → IsOverlay os root fork_key base w.proc_mounts w6.proc_mounts
        → ModeChecked os root fork_key quota_bytes mode w6
        → Kept w w6
        → ForkWrite os fork_key
            (some (fork_entry root base_key fork_key quota_bytes mode now))
            w6
            w7
        → Forked os root base_key fork_key quota_bytes now w w7
    registered base mode {w6 = w6} {w7 = w7} k1 known k2 absent made listed checked k6 write =
        record {
          base = base;
          base_known = sym (same_base base_key k1) ∙ known;
          was_absent = sym (same_fork fork_key k2) ∙ absent;
          mode = mode;
          mode_checked = record {
            unlimited = checked.unlimited;
            covered =
                λ h. has_prjquota_same os root fork_key w6 w7 write.mounts ∙ checked.covered h;
            hard_where = λ q e p f.
                checked.hard_where q e
                  (sym (has_prjquota_same os root fork_key w6 w7 write.mounts) ∙ p) f;
          };
          forks = λ j.
              write.forks j
              ∙ ap
                  (λ o.
                    if fork_key == j
                    then some (fork_entry root base_key fork_key quota_bytes mode now)
                    else o)
                  (same_fork j k6);
          bases = λ j. write.bases j ∙ same_base j k6;
          upper_exists = rw write.paths made.upper;
          work_exists = rw write.paths made.work;
          mounted = rw write.mounts listed;
        }

    -- If serde_json reads what it printed and the last buffer of a write to registry.json reaches
    -- the file: a fork_base that succeeds found the base and no fork of the key, has made upper/
    -- and work/, has had the kernel mount on merged/ the overlay of the base and these directories,
    -- has added exactly the new entry with these directories, and marks the quota hard only with a
    -- limit and where prjquota covers the root, and there if the project can be set; one that fails
    -- has left registry.json as it was.
    pub fork_base_effect :
        Outcome
          (λ _ w'. Forked os root base_key fork_key quota_bytes now w w')
          (λ _ w'. SameRegistry w w')
          (fork_base os root base_key fork_key quota_bytes now w)
    unfolding fork_base
    fork_base_effect =
        Outcome-bind _ _ _ (Outcome-map_err _ _ _ (open_effect os root fork_key w) (λ e s h. h))
          λ _ w1 o1.
            let k1 = o1.0 in
            Outcome-bind _ _ _
              (Outcome-map_err _ _ _ (get_base_effect os w1 base_key) (λ e s h. aborted k1 h))
              λ base w2 h2.
                let k2 = Kept-trans k1 (Kept-of_eq h2.0) in
                Outcome-bind _ _ _
                  (Outcome-weaken (ensure_absent_effect os root fork_key w2) (λ _ _ h. h)
                    (λ e s. aborted k2))
                  λ _ w3 h3.
                    let k3 = Kept-trans k2 (Kept-of_eq h3.0) in
                    Outcome-bind _ _ _
                      (Outcome-weaken (create_fork_dirs_effect os root fork_key w3) (λ _ _ h. h)
                        (λ e s h. h ∙ k3.registry))
                      λ _ w4 m4.
                        let made = m4.0 in
                        let m : SameMounts w w4 =
                          m4.1 ∙ ap (λ (x : World). x.proc_mounts) (h3.0 ∙ h2.0) ∙ o1.1 in
                        Outcome-bind _ _ _
                          (Outcome-weaken (mount_overlay_effect os root fork_key base w4)
                            (λ _ _ h. h) (λ e s h. h ∙ made.kept.registry ∙ k3.registry))
                          λ _ w5 h5.
                            let k5 = Kept-trans (Kept-trans k3 made.kept) h5.0 in
                            Outcome-bind _ _ _
                              (Outcome-weaken
                                (choose_quota_mode_effect os root fork_key quota_bytes w5)
                                (λ _ _ h. h) (λ e s. aborted k5))
                              λ mode w6 h6.
                                let k6 = Kept-trans k5 (Kept-of_eq h6.0) in
                                let later = Kept-trans h5.0 (Kept-of_eq h6.0) in
                                let made6 : Made os root fork_key w w6 = record {
                                  kept = k6;
                                  upper = later.grows _ made.upper;
                                  work = later.grows _ made.work;
                                } in
                                Outcome-weaken
                                  (Outcome-map_err _ _ _ (insert_fork_effect os codec w6 fork_key _)
                                    (λ e s. aborted k6))
                                  (λ _ w7 write.
                                    registered base mode k1 h2.1 k2 h3.1 made6
                                      (subst (λ t. IsOverlay os root fork_key base t w6.proc_mounts)
                                        m (rw h6.0 h5.1))
                                      (rw h6.0 h6.1) k6 write)
                                  (λ _ _ h. h)
