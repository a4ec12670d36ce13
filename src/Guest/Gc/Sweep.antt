-- ===== src/Guest/Gc/Sweep.antt =====
-- `run_gc` of src/gc.rs: what a sweep does to the registry.
use fastenv.Base.{
  ℕ, Text, Bool, true, false, List, [], ◌∷◌, ◌++◌, contains, if◌then◌else◌, ◌==◌, nat_Eq, list_Eq,
  ◌||◌, Option, none, Result, Outcome, returned, raised, Outcome-bind, Outcome-map_err,
  Outcome-weaken, Outcome-if, ◌≡◌, refl, ap, ◌∙◌, arith,
}
use fastenv.Os.{World, Platform, write_stdout}
use fastenv.Os.Paths.{FilePath}
use fastenv.Os.Effects.{SameRegistry}
use fastenv.Registry.{get_fork}
use fastenv.Registry.View.{fork_in, base_in, doc_in, IsCodec, fork_at, base_at}
use fastenv.Registry.Crud.{get_fork-world, open_registry_effect, list_forks_effect}
use fastenv.Guest.{CommandError}
use fastenv.Guest.Discard.Releases.{Discarded, discard_fork_effect}
use fastenv.Guest.Usage.{Node}
use fastenv.Guest.Gc.{
  GcOptions, GcSummary, Progress, noted, evict, evict_all, emit_summary, sweep, run_gc,
}

-- The registry has lost the forks `gone`, and nothing else.
pub record Swept (os : Platform) (gone : List Text) (w w' : World) : Type 0 where
  pub forks : (j : Text) → fork_at os w' j ≡ (if contains gone j then none else fork_at os w j)
  pub bases : (j : Text) → base_at os w' j ≡ base_at os w j

-- The sweep has removed what it says it has.
pub record Collected (os : Platform) (dry_run : Bool) (summary : GcSummary) (w w' : World)
    : Type 0 where
  pub swept : Swept os (if dry_run then [] else summary.evicted_forks) w w'
  pub told : summary.dry_run ≡ dry_run
  pub no_bytes : dry_run ≡ true → summary.bytes_reclaimed ≡ 0

Swept-same : (os : Platform) {w w' : World} → SameRegistry w w' → Swept os [] w w'
Swept-same os same = record {
  forks = λ j. ap (λ r. fork_in j (doc_in os r)) same;
  bases = λ j. ap (λ r. base_in j (doc_in os r)) same;
}

contains-snoc :
    (ks : List Text) (k j : Text) → contains (ks ++ k ∷ []) j ≡ (contains ks j || k == j)
contains-snoc [] k j = ground arith
contains-snoc (x ∷ ks) k j = ground (arith, contains-snoc ks k j)

module _ (os : Platform) (w0 : World) where
  one_less :
      (gone : List Text) (key : Text) {u w' : World}
      → Swept os gone w0 u
      → Discarded os key u w'
      → Swept os (gone ++ key ∷ []) w0 w'
  one_less gone key v d = record {
    forks =
        λ j. d.forks j ∙ ap (λ o. if key == j then none else o) (v.forks j) ∙ merged_if gone key j;
    bases = λ j. d.bases j ∙ v.bases j;
  }
    where
      merged_if :
          (gone : List Text) (key j : Text)
          → (if key == j then none else (if contains gone j then none else fork_at os w0 j))
            ≡ (if contains (gone ++ key ∷ []) j then none else fork_at os w0 j)
      merged_if gone key j = ground (arith, contains-snoc gone key j)

  noted-Swept :
      {Q : World → Type 0} (key : Text) (done : Progress) {u : World}
      {r : Result CommandError (Unit {0}) × World}
      → Swept os done.evicted w0 u
      → Outcome (λ _ w'. Discarded os key u w') (λ _ w'. SameRegistry u w' × Q w') r
      → Swept os (noted key done r.0).evicted w0 r.1
  noted-Swept key done v (returned d) = one_less done.evicted key v d
  noted-Swept key done v (raised h) = record {
    forks = λ j. ap (λ r. fork_in j (doc_in os r)) h.0 ∙ v.forks j;
    bases = λ j. ap (λ r. base_in j (doc_in os r)) h.0 ∙ v.bases j;
  }

module _ (os : Platform) (codec : IsCodec os) (tree_at : World → FilePath → Option Node)
    (root : FilePath) where
  evict-Swept :
      (w0 : World) (key : Text) (done : Progress) (w : World)
      → Swept os done.evicted w0 w
      → Swept os
          (evict os tree_at root key done w).0.evicted
          w0
          (evict os tree_at root key done w).1
  unfolding evict
  evict-Swept w0 key done w v =
      noted-Swept os w0 key _ (rw (get_fork-world os w key) v)
        (discard_fork_effect os codec root key (get_fork os key w).1)

  evict_all-Swept :
      (w0 : World) (evictions : List Text) (done : Progress) (w : World)
      → Swept os done.evicted w0 w
      → Swept os
          (evict_all os tree_at root evictions done w).0.evicted
          w0
          (evict_all os tree_at root evictions done w).1
  unfolding evict_all
  evict_all-Swept w0 [] done w v = v
  evict_all-Swept w0 (key ∷ rest) done w v =
      evict_all-Swept w0 rest _ _ (evict-Swept w0 key done w v)

  -- The summary is written or not; the state is the same.
  emit_effect :
      (summary : GcSummary) (w : World)
      → Outcome
          (λ s w'. (s ≡ summary) × (w' ≡ w))
          (λ _ w'. w' ≡ w)
          (emit_summary os tree_at summary w)
  emit_effect summary w =
      Outcome-if (os.fails write_stdout) (λ _. raised refl) (λ _. returned (refl, refl))

  sweep_effect :
      (dry_run : Bool) (evictions : List Text) (w0 w : World)
      → SameRegistry w0 w
      → Outcome
          (λ s w'. Collected os dry_run s w0 w')
          (λ _ w'. (gone : List Text) × Swept os gone w0 w')
          (sweep os tree_at root dry_run evictions w)
  unfolding sweep
  sweep_effect true evictions w0 w same =
      Outcome-weaken (emit_effect _ w)
        (λ s w' h. record {
          swept = rw h.1 (Swept-same os same);
          told = rw h.0 refl;
          no_bytes = λ _. rw h.0 refl;
        })
        (λ e w' h. ([], rw h (Swept-same os same)))
  sweep_effect false evictions w0 w same =
      let done = evict_all os tree_at root evictions (record { evicted = []; reclaimed = 0 }) w in
      let v =
        evict_all-Swept w0 evictions (record { evicted = []; reclaimed = 0 }) w
          (Swept-same os same) in
      Outcome-weaken (emit_effect _ done.1)
        (λ s w' h. record { swept = rw (h.0, h.1) v; told = rw h.0 refl; no_bytes = λ e. cc })
        (λ e w' h. (done.0.evicted, rw h v))

  -- If serde_json reads what it printed and the last buffer of a write to registry.json reaches the
  -- file: a run_gc that succeeds has removed from registry.json exactly the forks that its summary
  -- calls evicted, or none in a dry run, whose summary counts no bytes; one that fails has removed
  -- some forks and changed no other entry.
  pub run_gc_effect :
      (parse_time : Text → Option ℕ) (from_std : ℕ → Option ℕ) (now : ℕ) (opts : GcOptions)
      (w : World)
      → Outcome
          (λ s w'. Collected os opts.dry_run s w w')
          (λ _ w'. (gone : List Text) × Swept os gone w w')
          (run_gc os tree_at parse_time from_std now root opts w)
  unfolding run_gc
  run_gc_effect parse_time from_std now opts w =
      Outcome-bind _ _ _
        (Outcome-map_err _ _ _ (open_registry_effect os w root) (λ e s h. ([], Swept-same os h)))
        λ _ w1 k1.
          Outcome-bind _ _ _
            (Outcome-map_err _ _ _ (list_forks_effect os w1)
              (λ e s h. ([], Swept-same os (ap (λ (x : World). x.registry_json) h ∙ k1))))
            λ forks w2 h2.
              sweep_effect opts.dry_run _ w w2 (ap (λ (x : World). x.registry_json) h2 ∙ k1)
