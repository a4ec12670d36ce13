-- ===== src/Guest/Gc.antt =====
-- src/gc.rs: `run_gc` and `parse_duration`. Times and durations are in nanoseconds, times from the
-- earliest one that chrono represents. What chrono does is a parameter, and so is the state of the disk.
pub mod Order
pub mod Eviction
pub mod Sweep
use fastenv.Base.{
  ℕ, ◌+◌, ◌-◌, ◌*◌, ◌%◌, ◌^◌, Text, text, list_eq, parse_unsigned, HashMap, Bool, true, false, List,
  [], ◌∷◌, ◌++◌, map, filter, length, take, contains, leb, ltb, if◌then◌else◌, ◌==◌, nat_Eq,
  list_Eq, Option, none, some, Result, ok, err, Io, ◌>>=◌, ◌>>◌, map_err,
}
use fastenv.Schema.{ForkEntry}
use fastenv.Os.{World, Platform, syscall, write_stdout}
use fastenv.Os.Paths.{FilePath}
use fastenv.Registry.{RegistryError, open_registry_at, list_forks, get_fork}
use fastenv.Guest.{Command, CommandError, registry, run}
use fastenv.Guest.Discard.{discard_fork}
use fastenv.Guest.Usage.{Node, walk_upper_bytes}

pub record GcOptions : Type 0 where
  pub max_age : Option ℕ
  pub max_forks : Option ℕ
  pub dry_run : Bool

pub record GcSummary : Type 0 where
  pub evicted_forks : List Text
  pub bytes_reclaimed : ℕ
  pub dry_run : Bool

abbrev pub Timed : Type 0
Timed = Text × ℕ

-- `sort_by_key(|(_, ts)| *ts)`, which is stable.
unfoldable pub insert_timed : Timed → List Timed → List Timed
insert_timed e [] = e ∷ []
insert_timed e (x ∷ xs) =
    let rest = insert_timed e xs in if leb e.1 x.1 then e ∷ x ∷ xs else x ∷ rest

unfoldable pub sort_timed : List Timed → List Timed
unfolding insert_timed
sort_timed [] = []
sort_timed (e ∷ xs) = insert_timed e (sort_timed xs)

abbrev pub keys : List Timed → List Text
keys [] = []
keys (e ∷ xs) = e.0 ∷ keys xs

-- `now.signed_duration_since(ts) >= max_age`
abbrev pub is_expired : ℕ → ℕ → Timed → Bool
is_expired now max_age e = leb (e.1 + max_age) now

-- 2a. A duration that chrono cannot represent counts as zero.
abbrev pub or_zero : Option ℕ → ℕ
or_zero none = 0
or_zero (some d) = d

unfoldable pub evict_expired : (ℕ → Option ℕ) → ℕ → Option ℕ → List Timed → List Text
evict_expired from_std now none forks = []
evict_expired from_std now (some max_age) forks =
    keys (filter (is_expired now (or_zero (from_std max_age))) forks)

-- 2b.
unfoldable pub evict_excess : Option ℕ → List Timed → List Text
evict_excess none forks = []
evict_excess (some max_forks) forks =
    if ltb max_forks (length forks) then keys (take (length forks - max_forks) forks) else []

unfoldable pub eviction_list : (ℕ → Option ℕ) → ℕ → GcOptions → List Timed → List Text
unfolding evict_expired evict_excess
eviction_list from_std now opts forks =
    let to_evict =
      evict_expired from_std now opts.max_age forks ++ evict_excess opts.max_forks forks in
    keys (filter (λ e. contains to_evict e.0) forks)

-- The forks whose `created_at` is a time.
unfoldable pub with_times : (Text → Option ℕ) → HashMap ForkEntry → List Timed
with_times parse_time [] = []
with_times parse_time ((key, entry) ∷ forks) = elim (parse_time entry.created_at) [
  | none ↦ with_times parse_time forks
  | some ts ↦ (key, ts) ∷ with_times parse_time forks
]

abbrev pub or_no_bytes : Option ℕ → ℕ
or_no_bytes none = 0
or_no_bytes (some n) = n

-- What the loop has done so far.
pub record Progress : Type 0 where
  pub evicted : List Text
  pub reclaimed : ℕ

abbrev pub noted : Text → Progress → Result CommandError (Unit {0}) → Progress
noted key done (ok unit) = record done { evicted = done.evicted ++ key ∷ [] }
noted key done (err e) = done

module _ (platform : Platform) (tree_at : World → FilePath → Option Node) where
  abbrev pub upper_bytes : World → Result RegistryError ForkEntry → ℕ
  upper_bytes w (ok entry) = or_no_bytes (walk_upper_bytes (tree_at w entry.upper_path))
  upper_bytes w (err e) = 0

  -- One round of step 4. A discard that fails is skipped.
  unfoldable pub evict : FilePath → Text → Progress → World → Progress × World
  evict root key done w =
      let found = get_fork platform key w in
      let discarded = discard_fork platform key root found.1 in
      (
        noted key
            (record done { reclaimed = (done.reclaimed + upper_bytes found.1 found.0) % 2 ^ 64 })
            discarded.0,
        discarded.1,
      )

  unfoldable pub evict_all : FilePath → List Text → Progress → World → Progress × World
  unfolding evict
  evict_all root [] done w = (done, w)
  evict_all root (key ∷ rest) done w =
      let next = evict root key done w in evict_all root rest next.0 next.1

  abbrev pub emit_summary : GcSummary → Command GcSummary
  emit_summary summary w =
      if platform.fails write_stdout
      then (err (CommandError.os write_stdout), w)
      else (ok summary, w)

  unfoldable pub sweep : FilePath → Bool → List Text → Command GcSummary
  unfolding evict_all
  sweep root true evictions w =
      emit_summary (record { evicted_forks = evictions; bytes_reclaimed = 0; dry_run = true }) w
  sweep root false evictions w =
      let swept = evict_all root evictions (record { evicted = []; reclaimed = 0 }) w in
      emit_summary
        (record {
          evicted_forks = swept.0.evicted;
          bytes_reclaimed = swept.0.reclaimed;
          dry_run = false;
        })
        swept.1

  unfoldable pub run_gc :
      (Text → Option ℕ) → (ℕ → Option ℕ) → ℕ → FilePath → GcOptions → Command GcSummary
  unfolding eviction_list with_times sort_timed
  run_gc parse_time from_std now root opts = do
    map_err registry (open_registry_at platform root)
    all_forks ← map_err registry (list_forks platform)
    sweep root opts.dry_run
        (eviction_list from_std now opts (sort_timed (with_times parse_time all_forks)))

-- The text without its last character, and that character.
unfoldable pub split_last : Text → Option (Text × ℕ)
split_last [] = none
split_last (c ∷ []) = some ([], c)
split_last (c ∷ d ∷ s) = elim (split_last (d ∷ s)) [
  | none ↦ none
  | some (front, last) ↦ some (c ∷ front, last)
]

-- The number of seconds in a unit.
unfoldable pub unit_seconds : ℕ → Option ℕ
unit_seconds c =
    if c == b's'
    then some 1
    else if c == b'm'
    then some 60
    else if c == b'h'
    then some 3600
    else none

abbrev pub scaled : Option ℕ → Option ℕ → Option ℕ
scaled none amount = none
scaled (some secs) none = none
scaled (some secs) (some amount) = some (amount * secs % 2 ^ 64)

-- The seconds of a duration. A product that does not fit wraps, as in a release build.
unfoldable pub parse_duration : Text → Option ℕ
unfolding split_last unit_seconds list_eq
parse_duration s = if s == text "0" then some 0 else elim (split_last s) [
  | none ↦ none
  | some (amount, unit) ↦ scaled (unit_seconds unit) (parse_unsigned (2 ^ 64) amount)
]
