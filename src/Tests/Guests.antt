-- ===== src/Tests/Guests.antt =====
-- The theorems on the registry and the guest commands, at concrete inputs.
use Prim.Native.Nat.{max}
use fastenv.Os.{create_dirs, is_mounted}
use fastenv.Registry.{open_registry_at, get_fork, read_doc}
use fastenv.Guest.Discard.{unmount_if_mounted}
use fastenv.Os.{sys_mount}
use fastenv.Os.Paths.{join}
use fastenv.Os.Mounts.{is_listed, split_whitespace}
use fastenv.Registry.{get_base, with_exclusive_lock, write_doc}
use fastenv.Guest.Fork.{ensure_absent, create_fork_dirs, mount_overlay, fork_dir, mount_data}
use fastenv.Guest.Quota.{choose_quota_mode}
use fastenv.Base.{
  has_char, remove, All, ◌⊎◌, ◌==◌, Bool, list_eq, map_err, ◌>>=◌, ℕ, ◌^◌, ◌<◌, ◌≤◌, Text, text,
  true, false, List, [], ◌∷◌, none, some, ok, err, Outcome, ◌≡◌, refl, length, take, lookup, nat_Eq,
  list_Eq, ◌+◌,
}
use fastenv.Schema.{BaseEntry, ForkEntry, soft, default_doc}
use fastenv.Os.{World, Call, read_mounts}
use fastenv.Os.Paths.{FilePath}
use fastenv.Os.Effects.{SameRegistry}
use fastenv.Registry.{insert_fork, remove_fork}
use fastenv.Registry.View.{fork_at}
use fastenv.Registry.Crud.{ForkWrite, insert_fork_effect, remove_fork_effect}
use fastenv.Registry.Locking.{
  Shared, Reach, here, next, enter, acquire, read, write, idle, IsInside, replay, file-replay,
  Update, move, waiting, locked, loaded, finished,
}
use fastenv.Guest.{CommandError}
use fastenv.Guest.Fork.{fork_base}
use fastenv.Guest.Fork.Registers.{Forked, fork_base_effect}
use fastenv.Guest.Discard.{discard_fork}
use fastenv.Guest.Discard.Releases.{
  Discarded, Blocked, discard_fork_effect, discard_fork-Ready, discard_fork-retry,
}
use fastenv.Guest.MountPath.{mount_path, unmount_fork}
use fastenv.Guest.MountPath.Steps.{Unmounted}
use fastenv.Guest.MountPath.Mounting.{Shown, mount_path_effect, unmount_fork_effect}
use fastenv.Guest.Usage.{Entries, file, directory, end, entry, walk_upper_bytes}
use fastenv.Guest.Usage.Sums.{sizes, wrapped, walk_upper_bytes-sizes}
use fastenv.Guest.Gc.{GcOptions, Timed, sort_timed, keys, eviction_list, run_gc}
use fastenv.Guest.Gc.Order.{IsOldestFirst, IsUnique}
use fastenv.Guest.Gc.Eviction.{
  expired_count, excess_count, eviction_list-oldest, eviction_list-bound,
}
use fastenv.Guest.Gc.Sweep.{Collected, Swept, run_gc_effect}
use fastenv.Guest.Quota.{alloc_project_id}
use fastenv.Guest.Quota.Ids.{alloc_project_id-bounds}
use fastenv.Guest.Quota.{parse_proc_mounts_has_prjquota, unwrap_or_false}
use fastenv.Guest.Quota.Longest
use fastenv.Guest.Quota.Longest.{IsBound, IsFound, best_of, fields_of, parse_proc_mounts-longest}
use fastenv.Os.Mounts.{lines}
use fastenv.Guest.Diff
use fastenv.Guest.Diff.Kinds.{Holds, IsKind, IsAbout}
use fastenv.Guest.Diff.Complete.{Among, walk_upper_reports}
use fastenv.Tests.Codes.{doc}
use fastenv.Tests.Machines.{
  platform, healthy_platform, platform-IsCodec, platform-IsHealthy, platform-unmounts,
}

abbrev pub root : FilePath
root = text "data" ∷ []

abbrev pub key : Text
key = text "f"

abbrev base : BaseEntry
base = record {
  lower_path = text "lower" ∷ [];
  meta_path = text "meta" ∷ [];
  created_at = text "t0";
  cache_lower_paths = [];
}

abbrev pub fork : ForkEntry
fork = record {
  base_key = text "b";
  upper_path = text "data" ∷ text "up" ∷ [];
  work_path = text "data" ∷ text "work" ∷ [];
  merged_path = some (text "data" ∷ text "merged" ∷ []);
  quota_bytes = some 100;
  quota_mode = soft;
  created_at = text "t0";
  labels = [];
}

-- A world with one base, and one that also has a fork.
abbrev with_base : World
with_base = record {
  registry_json = some (doc.enc (record { bases = (text "b", base) ∷ []; forks = [] }) []);
  paths = [];
  proc_mounts = [];
}

abbrev pub with_fork : World
with_fork = record {
  registry_json =
      some (doc.enc (record { bases = (text "b", base) ∷ []; forks = (key, fork) ∷ [] }) []);
  paths = fork.upper_path ∷ fork.work_path ∷ [];
  proc_mounts = text "overlay /data/merged overlay rw 0 0\n";
}

insert_fork_effect_example :
    Outcome
      (λ _ w'. ForkWrite healthy_platform key (some fork) with_base w')
      (λ _ w'. w' ≡ with_base)
      (insert_fork healthy_platform key fork with_base)
insert_fork_effect_example =
    insert_fork_effect healthy_platform (platform-IsCodec (λ c. false)) with_base key fork

remove_fork_effect_example :
    Outcome
      (λ _ w'. ForkWrite healthy_platform key none with_fork w')
      (λ _ w'. w' ≡ with_fork)
      (remove_fork healthy_platform key with_fork)
remove_fork_effect_example =
    remove_fork_effect healthy_platform (platform-IsCodec (λ c. false)) with_fork key

fork_base_effect_example :
    Outcome
      (λ _ w'. Forked healthy_platform root (text "b") key (some 7) (text "t1") with_base w')
      (λ _ w'. SameRegistry with_base w')
      (fork_base healthy_platform root (text "b") key (some 7) (text "t1") with_base)
fork_base_effect_example =
    fork_base_effect healthy_platform root key (platform-IsCodec (λ c. false)) (text "b") (some 7)
      (text "t1") with_base

discard_fork_effect_example :
    Outcome
      (λ _ w'. Discarded healthy_platform key with_fork w')
      (λ _ w'. Blocked healthy_platform key with_fork w')
      (discard_fork healthy_platform key root with_fork)
discard_fork_effect_example =
    discard_fork_effect healthy_platform (platform-IsCodec (λ c. false)) root key with_fork

found : fork_at healthy_platform with_fork key ≡ some fork
unfolding lookup list_eq
found = refl

discard_fork-Ready_example : (discard_fork healthy_platform key root with_fork).0 ≡ ok tt
discard_fork-Ready_example =
    discard_fork-Ready healthy_platform (platform-IsCodec (λ c. false)) root key with_fork (record {
      healthy = platform-IsHealthy;
      entry = fork;
      is_there = found;
      unmounts = platform-unmounts;
    })

-- /proc/mounts cannot be read.
abbrev blind : Call → Bool
blind read_mounts = true
blind _ = false

blind_fails :
    (discard_fork (platform blind) key root with_fork).0 ≡ err (CommandError.os read_mounts)
unfolding discard_fork open_registry_at create_dirs get_fork read_doc lookup list_eq map_err ◌>>=◌
    unmount_if_mounted is_mounted
blind_fails = refl

discard_fork-retry_example :
    (discard_fork healthy_platform key root (discard_fork (platform blind) key root with_fork).1).0
    ≡ ok tt
discard_fork-retry_example =
    discard_fork-retry (platform blind) (platform-IsCodec blind) root key with_fork healthy_platform
      fork (CommandError.os read_mounts) refl (platform-IsCodec (λ c. false)) platform-IsHealthy
      platform-unmounts found blind_fails

mount_path_effect_example :
    Outcome
      (λ p w'. Shown healthy_platform root key p with_fork w')
      (λ _ w'. SameRegistry with_fork w')
      (mount_path healthy_platform key root with_fork)
mount_path_effect_example =
    mount_path_effect healthy_platform (platform-IsCodec (λ c. false)) key root with_fork

unmount_fork_effect_example :
    Outcome
      (λ _ w'. Unmounted healthy_platform key with_fork w')
      (λ _ w'. SameRegistry with_fork w')
      (unmount_fork healthy_platform key root with_fork)
unmount_fork_effect_example =
    unmount_fork_effect healthy_platform (platform-IsCodec (λ c. false)) key root with_fork

-- upper/ of the fork holds a file of 5 bytes, and one of 2 in a directory.
abbrev files : Entries
files =
    entry (text "a") (file (some 5))
      (entry (text "d") (directory (entry (text "b") (file (some 2)) end)) end)

walk_upper_bytes-sizes_example : walk_upper_bytes (some (directory files)) ≡ wrapped 0 (sizes files)
walk_upper_bytes-sizes_example = walk_upper_bytes-sizes files

alloc_project_id-bounds_example : (2 ≤ alloc_project_id key) × (alloc_project_id key < 2 ^ 32)
alloc_project_id-bounds_example = alloc_project_id-bounds key

abbrev options : GcOptions
options = record { max_age = some 50; max_forks = some 1; dry_run = false }

abbrev timed : List Timed
timed = (text "new", 90) ∷ (text "old", 10) ∷ (text "mid", 60) ∷ []

timed-IsUnique : IsUnique (keys timed)
unfolding list_eq
timed-IsUnique = (refl, (refl, (refl, tt)))

eviction_list-bound_example :
    length timed ≤ 1 + length (eviction_list some 100 options (sort_timed timed))
eviction_list-bound_example = eviction_list-bound some 100 options timed 1 timed-IsUnique refl

run_gc_effect_example :
    Outcome
      (λ s w'. Collected healthy_platform false s with_fork w')
      (λ _ w'. (gone : List Text) × Swept healthy_platform gone with_fork w')
      (run_gc healthy_platform
        (λ w p. some (directory files))
        (λ t. some 10)
        some
        100
        root
        options
        with_fork)
run_gc_effect_example =
    run_gc_effect healthy_platform (platform-IsCodec (λ c. false)) (λ w p. some (directory files))
      root (λ t. some 10) some 100 options with_fork

eviction_list-oldest_example :
    IsOldestFirst (sort_timed timed)
    × (eviction_list some 100 options (sort_timed timed)
        ≡ keys (
            take
              (max
                (expired_count some 100 (some 50) (sort_timed timed))
                (excess_count (some 1) (sort_timed timed)))
              (sort_timed timed)))
eviction_list-oldest_example = eviction_list-oldest some 100 options timed timed-IsUnique

-- Process 7 inserts a base into an empty registry.
abbrev start : Shared
start = record { holder = none; file = default_doc; pcs = λ p. idle; log = [] }

abbrev add_base : Update
add_base d = ok (record d { bases = (text "b", base) ∷ d.bases })

abbrev entered : Shared
entered = move 7 (waiting add_base) start

abbrev holding : Shared
holding = move 7 (locked add_base) (record entered { holder = some 7 })

abbrev seen : Shared
seen = move 7 (loaded add_base default_doc) holding

abbrev written : Shared
written = move 7 finished (record seen {
  file = record { bases = (text "b", base) ∷ []; forks = [] };
  log = add_base ∷ [];
})

run_of_7 : Reach start written
run_of_7 =
    next
      (next (next (next here (enter 7 add_base refl)) (acquire 7 add_base refl refl))
        (read 7 add_base refl))
      (write 7 add_base default_doc _ refl refl)

file-replay_example :
    (written.file ≡ replay start.file written.log)
    × ((p q : ℕ) → IsInside (written.pcs p) → IsInside (written.pcs q) → p ≡ q)
file-replay_example =
    file-replay {s = start} {t = written} (record { free = refl; idles = λ p. refl; fresh = refl })
      run_of_7

abbrev mounts : Text
mounts = text "dev / ext4 rw 0 0\ndev /data xfs rw,prjquota 0 0\n"

parse_proc_mounts-longest_example :
    (parse_proc_mounts_has_prjquota mounts root ≡ unwrap_or_false (best_of root mounts).best_mount)
    × All (λ line. IsBound root (best_of root mounts).best_len (fields_of line)) (lines mounts)
    × ((best_of root mounts ≡ Longest.start root)
        ⊎ IsFound root (best_of root mounts) (lines mounts))
parse_proc_mounts-longest_example = parse_proc_mounts-longest root mounts

abbrev changes : Diff.Entries
changes =
    Diff.Entries.entry (text "b") Diff.Node.regular
      (Diff.Entries.entry (text "a") (Diff.Node.char_device 0) Diff.Entries.end)

walk_upper_reports_example :
    All
      (IsAbout (λ p. p == text "b" ∷ []) [] changes)
      (Diff.walk_upper (λ p. p == text "b" ∷ []) [] changes).lines
    × ((p : FilePath) (name : Text) (node : Diff.Node)
        → Holds [] changes p name node
        → (Diff.walk_upper (λ p. p == text "b" ∷ []) [] changes).failed ≡ false
        → (e : Diff.DiffEntry) × (e.path ≡ p)
          × IsKind (λ p. p == text "b" ∷ []) p name node e.change_type
          × Among e (Diff.walk_upper (λ p. p == text "b" ∷ []) [] changes).lines)
walk_upper_reports_example = walk_upper_reports (λ p. p == text "b" ∷ []) [] changes

fork_base_runs :
    (fork_base healthy_platform root (text "b") key none (text "t1") with_base).0 ≡ ok tt
unfolding fork_base list_eq lookup open_registry_at get_fork get_base create_dirs map_err ◌>>=◌
    read_doc ensure_absent create_fork_dirs mount_overlay choose_quota_mode insert_fork has_char
    sys_mount join fork_dir is_listed lines split_whitespace with_exclusive_lock write_doc remove
    mount_data
fork_base_runs = refl

eviction_runs : eviction_list some 100 options (sort_timed timed) ≡ text "old" ∷ text "mid" ∷ []
unfolding eviction_list sort_timed list_eq
eviction_runs = refl

-- A duration that chrono cannot represent evicts every fork.
endless_evicts_all :
    eviction_list
      (λ d. none)
      100
      (record { max_age = some 50; max_forks = none; dry_run = false })
      (sort_timed timed)
    ≡ text "old" ∷ text "mid" ∷ text "new" ∷ []
unfolding eviction_list sort_timed list_eq
endless_evicts_all = refl
