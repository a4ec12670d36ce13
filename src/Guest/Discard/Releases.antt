-- ===== src/Guest/Discard/Releases.antt =====
-- `discard_fork` of src/discard.rs: what a discard leaves behind.
use fastenv.Base.{
  Text, Option, none, some, Result-cases, ok, err, ◌==◌, nat_Eq, list_Eq, if◌then◌else◌, true,
  false, subst, inl, inr, Outcome, Outcome-bind, Outcome-map_err, Outcome-weaken, Outcome-err, ◌≡◌,
  ◌≢◌, refl, ap, ◌∙◌, sym,
}
use fastenv.Schema.{ForkEntry}
use fastenv.Os.{World, Platform, exists}
use fastenv.Os.Paths.{FilePath}
use fastenv.Os.Mounts.{is_listed}
use fastenv.Os.Effects.{SameRegistry, Shrunk-trans}
use fastenv.Registry.View.{fork_in, base_in, doc_in, IsCodec, IsHealthy, fork_at, base_at}
use fastenv.Registry.Crud.{ForkWrite}
use fastenv.Guest.{CommandError}
use fastenv.Guest.Fork.{fork_dir}
use fastenv.Guest.Discard.{discard_fork}
use fastenv.Guest.Discard.Steps.{
  remove_if_exists_effect, remove_merged_effect, remove_best_effort_effect,
  unmount_if_mounted_effect, found_effect, removed_effect, open_effect, Findable, Unmounts,
  Released,
}

-- What `discard_fork` has done when it returns `Ok`.
pub record Discarded (os : Platform) (fork_key : Text) (w w' : World) : Type 0 where
  pub entry : ForkEntry
  pub was_there : fork_at os w fork_key ≡ some entry
  pub forks : (j : Text) → fork_at os w' j ≡ (if fork_key == j then none else fork_at os w j)
  pub bases : (j : Text) → base_at os w' j ≡ base_at os w j
  pub upper_gone : exists w' entry.upper_path ≡ false
  pub work_gone : exists w' entry.work_path ≡ false
  pub unmounted : Released os entry.merged_path w.proc_mounts w'.proc_mounts

-- Nothing stands in the way of a discard: the fork is there, no call fails, and the kernel
-- unmounts what is mounted.
pub record Ready (os : Platform) (fork_key : Text) (w : World) : Type 0 where
  pub healthy : IsHealthy os
  pub entry : ForkEntry
  pub is_there : fork_at os w fork_key ≡ some entry
  pub unmounts :
      (p : FilePath) (mounts : Text) → is_listed p mounts ≡ true → os.unmount p mounts ≢ none

module _ (os : Platform) where
  -- The error of a step: the registry is untouched, and something stood in the way.
  abbrev pub Blocked : Text → World → World → Type 0
  Blocked key w w' = SameRegistry w w' × ¬ (Ready os key w)

  module _ (codec : IsCodec os) (root : FilePath) (fork_key : Text) (w : World) where
    Ready-Findable : (v : World) → SameRegistry w v → Ready os fork_key w → Findable os fork_key v
    Ready-Findable v same ready = (
      ready.healthy,
      (ready.entry, ap (λ r. fork_in fork_key (doc_in os r)) same ∙ ready.is_there),
    )

    same_file : {u v : World} → v ≡ u → SameRegistry u v
    same_file h = ap (λ (x : World). x.registry_json) h

    released :
        (entry : ForkEntry) {u v : World}
        → fork_at os w fork_key ≡ some entry
        → SameRegistry w u
        → exists u entry.upper_path ≡ false
        → exists u entry.work_path ≡ false
        → Released os entry.merged_path w.proc_mounts u.proc_mounts
        → ForkWrite os fork_key none u v
        → Discarded os fork_key w v
    released entry there same upper work unmounted write = record {
      entry = entry;
      was_there = there;
      forks = λ j.
          write.forks j ∙ ap (λ r. if fork_key == j then none else fork_in j (doc_in os r)) same;
      bases = λ j. write.bases j ∙ ap (λ r. base_in j (doc_in os r)) same;
      upper_gone = rw write.paths upper;
      work_gone = rw write.paths work;
      unmounted = rw write.mounts unmounted;
    }

    -- If serde_json reads what it printed and the last buffer of a write to registry.json reaches
    -- the file: a discard_fork that succeeds has unmounted the fork's mount point if /proc/mounts
    -- listed it, and nothing else, and has removed the upper and work directories of the fork and
    -- its entry, and no other entry; one that fails has left registry.json as it was, and then
    -- either a call failed, or the fork was not there, or the kernel refused to unmount what is
    -- mounted.
    pub discard_fork_effect :
        Outcome
          (λ _ w'. Discarded os fork_key w w')
          (λ _ w'. Blocked fork_key w w')
          (discard_fork os fork_key root w)
    unfolding discard_fork
    discard_fork_effect =
        Outcome-bind _ _ _
          (Outcome-map_err _ _ _ (open_effect os root w)
            (λ e s h. (h.0, λ ready. h.1 ready.healthy)))
          λ _ w1 o1.
            let k1 = o1.0 in
            Outcome-bind _ _ _
              (Outcome-map_err _ _ _ (found_effect os fork_key w1)
                (λ e s h. (same_file h.0 ∙ k1, λ ready. h.1 (Ready-Findable w1 k1 ready))))
              λ entry w2 h2.
                let k2 = same_file h2.0 ∙ k1 in
                Outcome-bind _ _ _
                  (Outcome-weaken (unmount_if_mounted_effect os entry.merged_path w2) (λ _ _ h. h)
                    (λ e s h. (h.0 ∙ k2, λ ready. h.1 (ready.healthy, ready.unmounts))))
                  λ _ w3 h3.
                    let k3 = h3.0.registry ∙ k2 in
                    let m2 = ap (λ (x : World). x.proc_mounts) h2.0 ∙ o1.1 in
                    let r3 = subst (λ t. Released os entry.merged_path t w3.proc_mounts) m2 h3.1 in
                    Outcome-bind _ _ _
                      (Outcome-weaken (remove_if_exists_effect os entry.upper_path w3) (λ _ _ h. h)
                        (λ e s h. (h.0.registry ∙ k3, λ ready. h.1 ready.healthy)))
                      λ _ w4 h4.
                        let k4 = h4.0.0.registry ∙ k3 in
                        Outcome-bind _ _ _
                          (Outcome-weaken (remove_if_exists_effect os entry.work_path w4)
                            (λ _ _ h. h) (λ e s h. (h.0.registry ∙ k4, λ ready. h.1 ready.healthy)))
                          λ _ w5 h5.
                            Outcome-bind _ _ _
                              (Outcome-weaken (remove_merged_effect os entry.merged_path w5)
                                (λ _ _ h. h) (λ e s h. absurd h))
                              λ _ w6 h6.
                                Outcome-bind _ _ _
                                  (Outcome-weaken
                                    (remove_best_effort_effect os (fork_dir root fork_key) w6)
                                    (λ _ _ h. h) (λ e s h. absurd h))
                                  λ _ w7 h7.
                                    let later = Shrunk-trans h5.0.0 (Shrunk-trans h6.0 h7.0) in
                                    let m7 = h7.1 ∙ h6.1 ∙ h5.1 ∙ h4.1 in
                                    let k7 = later.registry ∙ k4 in
                                    Outcome-map_err _ _ _
                                      (Outcome-weaken (removed_effect os codec fork_key w7)
                                        (λ _ w8 write.
                                          released entry
                                            (ap (λ r. fork_in fork_key (doc_in os r)) (sym k1)
                                              ∙ h2.1)
                                            k7 (later.shrinks _ h4.0.1)
                                            ((Shrunk-trans h6.0 h7.0).shrinks _ h5.0.1)
                                            (subst (Released os entry.merged_path w.proc_mounts)
                                              (sym m7) r3)
                                            write)
                                        (λ _ _ h. h))
                                      (λ e s h. (
                                        same_file h.0 ∙ k7,
                                        λ ready. h.1 (Ready-Findable w7 k7 ready),
                                      ))

    -- With nothing in its way, a discard succeeds.
    pub discard_fork-Ready : Ready os fork_key w → (discard_fork os fork_key root w).0 ≡ ok tt
    discard_fork-Ready ready = elim (Result-cases (discard_fork os fork_key root w).0) [
      | inl (unit, h) ↦ h
      | inr (e, h) ↦ absurd ((Outcome-err discard_fork_effect h).1 ready)
    ]

module _ (os : Platform) (codec : IsCodec os) (root : FilePath) (fork_key : Text) (w : World) where
  -- If serde_json reads what it printed and the last buffer of a write to registry.json reaches the
  -- file, and a discard_fork of a fork that is there fails: once no call fails any more and the
  -- kernel unmounts what is mounted, while registry.json is still parsed the same way, the same
  -- discard_fork succeeds on what the first one left.
  pub discard_fork-retry :
      (later : Platform) (entry : ForkEntry) (e : CommandError)
      → later.parse_doc ≡ os.parse_doc
      → IsCodec later
      → IsHealthy later
      → Unmounts later
      → fork_at os w fork_key ≡ some entry
      → (discard_fork os fork_key root w).0 ≡ err e
      → (discard_fork later fork_key root (discard_fork os fork_key root w).1).0 ≡ ok tt
  discard_fork-retry later entry e same_parse codec' healthy unmounts there failed =
      discard_fork-Ready later codec' root fork_key (discard_fork os fork_key root w).1
        (record { healthy = healthy; entry = entry; is_there = still; unmounts = unmounts })
    where
      kept : SameRegistry w (discard_fork os fork_key root w).1
      kept = (Outcome-err (discard_fork_effect os codec root fork_key w) failed).0

      reread : (r : Option Text) → doc_in later r ≡ doc_in os r
      reread none = refl
      reread (some contents) = ap (λ f. f contents) same_parse

      still : fork_at later (discard_fork os fork_key root w).1 fork_key ≡ some entry
      still =
          ap (fork_in fork_key) (reread _) ∙ ap (λ r. fork_in fork_key (doc_in os r)) kept ∙ there
