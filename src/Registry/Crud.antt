-- ===== src/Registry/Crud.antt =====
-- src/registry.rs: the accesses as operations on two maps, and their errors.
use fastenv.Os.Paths.{FilePath}
use fastenv.Os.Effects.{SameRegistry, SameMounts, create_dirs-Kept, create_dirs-SameMounts}
use fastenv.Base.{
  map_err, Outcome-map_err, Outcome-weaken, Text, lookup, lookup-insert, lookup-remove, Option,
  none, some, Option-cases, inl, inr, Outcome, Outcome-intro, Result, Result-cases, ok, err, ◌≡◌,
  refl, ◌==◌, nat_Eq, list_Eq, if◌then◌else◌, arith,
}
use fastenv.Schema.{BaseEntry, ForkEntry, RegistryDoc}
use fastenv.Os.{World, Platform, open_registry, open_lock, flock, create_temp}
use fastenv.Registry.{
  RegistryError, not_found, with_exclusive_lock, insert_base, get_base, remove_base, insert_fork,
  get_fork, remove_fork, open_registry_at, list_forks, read_doc, write_doc,
}
use fastenv.Registry.View.{
  IsCodec, IsHealthy, doc_of, fork_at, base_at, replaced, read_doc-world, read_doc-ok,
  exclusive-err, exclusive-ok, exclusive-corrupt, exclusive-rejected,
}

-- `w'` differs from `w` in the fork `key` alone, which is now `entry`.
pub record ForkWrite (os : Platform) (key : Text) (entry : Option ForkEntry) (w w' : World)
    : Type 0 where
  pub forks : (j : Text) → fork_at os w' j ≡ (if key == j then entry else fork_at os w j)
  pub bases : (j : Text) → base_at os w' j ≡ base_at os w j
  pub paths : w'.paths ≡ w.paths
  pub mounts : w'.proc_mounts ≡ w.proc_mounts

pub record BaseWrite (os : Platform) (key : Text) (entry : Option BaseEntry) (w w' : World)
    : Type 0 where
  pub bases : (j : Text) → base_at os w' j ≡ (if key == j then entry else base_at os w j)
  pub forks : (j : Text) → fork_at os w' j ≡ fork_at os w j
  pub paths : w'.paths ≡ w.paths
  pub mounts : w'.proc_mounts ≡ w.proc_mounts

module _ (os : Platform) (codec : IsCodec os) (w : World) where
  fork_at-replaced :
      (doc : RegistryDoc) (j : Text) → fork_at os (replaced os w doc) j ≡ lookup j doc.forks
  fork_at-replaced doc j =
      let (e, read, same) = codec.parse-print doc in
      rw (codec.flushes (os.print_doc doc), read) (same.forks j)

  base_at-replaced :
      (doc : RegistryDoc) (j : Text) → base_at os (replaced os w doc) j ≡ lookup j doc.bases
  base_at-replaced doc j =
      let (e, read, same) = codec.parse-print doc in
      rw (codec.flushes (os.print_doc doc), read) (same.bases j)

  exclusive-doc :
      (f : RegistryDoc → Result RegistryError RegistryDoc)
      → (with_exclusive_lock os f w).0 ≡ ok tt
      → (doc : RegistryDoc) × (doc' : RegistryDoc) × (doc_of os w ≡ some doc) × (f doc ≡ ok doc')
  exclusive-doc f h = elim (Option-cases (doc_of os w)) [
    | inl corrupt ↦ absurd (exclusive-corrupt os w f corrupt h)
    | inr (doc, read) ↦ elim (Result-cases (f doc)) [
      | inl (doc', changed) ↦ (doc, doc', read, changed)
      | inr (e, rejected) ↦ absurd (exclusive-rejected os w f read rejected h)
    ]
  ]

  module _ (f : RegistryDoc → Result RegistryError RegistryDoc) (key : Text) where
    fork_write :
        (entry : Option ForkEntry)
        → ((doc doc' : RegistryDoc)
            → f doc ≡ ok doc'
            → (j : Text)
            → (lookup j doc'.forks ≡ (if key == j then entry else lookup j doc.forks))
              × (lookup j doc'.bases ≡ lookup j doc.bases))
        → (with_exclusive_lock os f w).0 ≡ ok tt
        → ForkWrite os key entry w (with_exclusive_lock os f w).1
    fork_write entry effect h =
        let (doc, doc', read, changed) = exclusive-doc f h in
        rw (exclusive-ok os w f read changed h) (record {
          forks = λ j. rw (fork_at-replaced doc' j, read) (effect doc doc' changed j).0;
          bases = λ j. rw (base_at-replaced doc' j, read) (effect doc doc' changed j).1;
          paths = refl;
          mounts = refl;
        })

    base_write :
        (entry : Option BaseEntry)
        → ((doc doc' : RegistryDoc)
            → f doc ≡ ok doc'
            → (j : Text)
            → (lookup j doc'.bases ≡ (if key == j then entry else lookup j doc.bases))
              × (lookup j doc'.forks ≡ lookup j doc.forks))
        → (with_exclusive_lock os f w).0 ≡ ok tt
        → BaseWrite os key entry w (with_exclusive_lock os f w).1
    base_write entry effect h =
        let (doc, doc', read, changed) = exclusive-doc f h in
        rw (exclusive-ok os w f read changed h) (record {
          bases = λ j. rw (base_at-replaced doc' j, read) (effect doc doc' changed j).0;
          forks = λ j. rw (fork_at-replaced doc' j, read) (effect doc doc' changed j).1;
          paths = refl;
          mounts = refl;
        })

  -- An insertion that succeeds sets the entry of its key and changes nothing else.
  pub insert_fork-ForkWrite :
      (key : Text) (entry : ForkEntry)
      → (insert_fork os key entry w).0 ≡ ok tt
      → ForkWrite os key (some entry) w (insert_fork os key entry w).1
  unfolding insert_fork
  insert_fork-ForkWrite key entry =
      fork_write _ key (some entry)
        λ doc doc' e j. ground (arith, lookup-insert key j entry doc.forks)

  -- A removal that succeeds clears the entry of its key and changes nothing else.
  pub remove_fork-ForkWrite :
      (key : Text)
      → (remove_fork os key w).0 ≡ ok tt
      → ForkWrite os key none w (remove_fork os key w).1
  unfolding remove_fork
  remove_fork-ForkWrite key =
      fork_write _ key none λ doc doc' e j. ground (arith, lookup-remove key j doc.forks)

  pub insert_base-BaseWrite :
      (key : Text) (entry : BaseEntry)
      → (insert_base os key entry w).0 ≡ ok tt
      → BaseWrite os key (some entry) w (insert_base os key entry w).1
  unfolding insert_base
  insert_base-BaseWrite key entry =
      base_write _ key (some entry)
        λ doc doc' e j. ground (arith, lookup-insert key j entry doc.bases)

  pub remove_base-BaseWrite :
      (key : Text)
      → (remove_base os key w).0 ≡ ok tt
      → BaseWrite os key none w (remove_base os key w).1
  unfolding remove_base
  remove_base-BaseWrite key =
      base_write _ key none λ doc doc' e j. ground (arith, lookup-remove key j doc.bases)

  -- If serde_json reads what it printed and the last buffer of a write to registry.json reaches the
  -- file: an insert_fork that succeeds sets the entry of its key and changes no other fork, no
  -- base, no directory and no mount; one that fails changes nothing.
  pub insert_fork_effect :
      (key : Text) (entry : ForkEntry)
      → Outcome
          (λ _ w'. ForkWrite os key (some entry) w w')
          (λ _ w'. w' ≡ w)
          (insert_fork os key entry w)
  insert_fork_effect key entry =
      Outcome-intro _ (λ _ h. insert_fork-ForkWrite key entry h)
        (λ e h. unfold insert_fork in exclusive-err os w _ (unfold insert_fork in h))

  -- If serde_json reads what it printed and the last buffer of a write to registry.json reaches the
  -- file: a remove_fork that succeeds clears the entry of its key and changes no other fork, no
  -- base, no directory and no mount; one that fails changes nothing.
  pub remove_fork_effect :
      (key : Text)
      → Outcome (λ _ w'. ForkWrite os key none w w') (λ _ w'. w' ≡ w) (remove_fork os key w)
  remove_fork_effect key =
      Outcome-intro _ (λ _ h. remove_fork-ForkWrite key h)
        (λ e h. unfold remove_fork in exclusive-err os w _ (unfold remove_fork in h))

module _ (os : Platform) (w : World) where
  -- A read changes nothing, and returns what the file says.
  pub get_fork-world : (key : Text) → (get_fork os key w).1 ≡ w
  unfolding get_fork
  get_fork-world key = ground (arith, read_doc-world os w)

  pub get_base-world : (key : Text) → (get_base os key w).1 ≡ w
  unfolding get_base
  get_base-world key = ground (arith, read_doc-world os w)

  pub get_fork-ok :
      (key : Text) {entry : ForkEntry}
      → (get_fork os key w).0 ≡ ok entry
      → fork_at os w key ≡ some entry
  unfolding get_fork
  get_fork-ok key h = grind (arith, read_doc-ok os w)

  pub get_base-ok :
      (key : Text) {entry : BaseEntry}
      → (get_base os key w).0 ≡ ok entry
      → base_at os w key ≡ some entry
  unfolding get_base
  get_base-ok key h = grind (arith, read_doc-ok os w)

  pub get_fork-missing :
      (key j : Text) → (get_fork os key w).0 ≡ err (not_found j) → fork_at os w key ≡ none
  unfolding get_fork read_doc
  get_fork-missing key j h = grind (arith, read_doc-ok os w)

  pub get_fork_effect :
      (key : Text)
      → Outcome
          (λ entry w'. (w' ≡ w) × (fork_at os w key ≡ some entry))
          (λ _ w'. w' ≡ w)
          (get_fork os key w)
  get_fork_effect key =
      Outcome-intro _ (λ entry h. (get_fork-world key, get_fork-ok key h))
        (λ e h. get_fork-world key)

  pub get_base_effect :
      (key : Text)
      → Outcome
          (λ entry w'. (w' ≡ w) × (base_at os w key ≡ some entry))
          (λ _ w'. w' ≡ w)
          (get_base os key w)
  get_base_effect key =
      Outcome-intro _ (λ entry h. (get_base-world key, get_base-ok key h))
        (λ e h. get_base-world key)

  -- With no failing call, a read finds what is there and a removal removes it.
  pub get_fork-healthy :
      (key : Text) {entry : ForkEntry}
      → IsHealthy os
      → fork_at os w key ≡ some entry
      → (get_fork os key w).0 ≡ ok entry
  unfolding get_fork read_doc
  get_fork-healthy key healthy h = ground (arith, healthy.calls open_registry)

  pub remove_fork-healthy :
      (key : Text) {entry : ForkEntry}
      → IsHealthy os
      → fork_at os w key ≡ some entry
      → (remove_fork os key w).0 ≡ ok tt
  unfolding remove_fork with_exclusive_lock read_doc write_doc
  remove_fork-healthy key healthy h = ground (
    arith,
    healthy.calls open_registry,
    healthy.calls open_lock,
    healthy.calls flock,
    healthy.calls create_temp,
  )

  pub open_registry_at-SameMounts : (root : FilePath) → SameMounts w (open_registry_at os root w).1
  unfolding open_registry_at map_err
  open_registry_at-SameMounts root = create_dirs-SameMounts os root w

  -- Opening the registry, and reading all forks, leave it as it is.
  pub open_registry_effect :
      (root : FilePath)
      → Outcome (λ _ w'. SameRegistry w w') (λ _ w'. SameRegistry w w') (open_registry_at os root w)
  unfolding open_registry_at
  open_registry_effect root =
      Outcome-map_err _ _ _
        (Outcome-weaken {Q' = λ c w'. SameRegistry w w'} (create_dirs-Kept os root w)
          (λ _ _ k. k.registry) (λ _ _ h. h.0))
        (λ c s h. h)

  list_forks-world : (list_forks os w).1 ≡ w
  unfolding list_forks
  list_forks-world = ground (arith, read_doc-world os w)

  pub list_forks_effect :
      Outcome {E = RegistryError} (λ forks w'. w' ≡ w) (λ _ w'. w' ≡ w) (list_forks os w)
  list_forks_effect = Outcome-intro _ (λ forks h. list_forks-world) (λ e h. list_forks-world)
