-- ===== src/Exec/Run/Running.antt =====
-- What `run_exec` leaves behind.
use fastenv.Base.{
  ℕ, Text, Bool, true, false, not, List, ◌∷◌, Option, none, some, Result, nat_Eq, list_Eq, ◌≡◌,
  refl, ap, ◌∙◌, sym, Outcome, returned, raised, Outcome-bind, Outcome-if, Outcome-weaken,
}
use fastenv.Schema.{ForkEntry}
use fastenv.Os.{World, exists}
use fastenv.Os.Paths.{FilePath}
use fastenv.Os.Effects.{SameRegistry}
use fastenv.Registry.{RegistryError, open_registry_at, get_fork}
use fastenv.Registry.View.{fork_at, fork_in, doc_in}
use fastenv.Registry.Crud.{open_registry_effect, get_fork_effect}
use fastenv.GuestEbpf.Loader.Detaching.{GivesFresh}
use fastenv.Exec.Config.{ExecOptions}
use fastenv.Exec.Run.{
  ExecHost, ExitStatus, exited, ExecTools, no_command, with_world, in_world, ensure, required,
  is_empty, exit_code, config_of, run_exec,
}
use fastenv.Exec.Run.Steps.{GivesNew, Ran, Same, in_tempdir-Ran}

-- All but the paths of the world is as it was.
record Still (h v : ExecHost) : Type 0 where
  registry : SameRegistry h.world v.world
  guest : v.guest ≡ h.guest
  bundles : v.bundles ≡ h.bundles
  runs : v.runs ≡ h.runs

Still-refl : (h : ExecHost) → Still h h
Still-refl h = record { registry = refl; guest = refl; bundles = refl; runs = refl }

-- The command was run in the fork's directory, and all that was taken for it is released.
pub record Executed (tools : ExecTools) (id : Text) (command : List Text) (opts : ExecOptions)
    (h : ExecHost) (code : ℕ) (h' : ExecHost) : Type 0 where
  pub has_command : is_empty command ≡ false
  pub entry : ForkEntry
  pub known : fork_at tools.os h.world id ≡ some entry
  pub merged : FilePath
  pub recorded : entry.merged_path ≡ some merged
  pub is_there : exists h'.world merged ≡ true
  pub bundle : FilePath
  pub config : Text
  pub printed : tools.print_config (config_of tools command merged opts) ≡ some config
  pub status : ExitStatus
  pub ran :
      tools.crun
        (record { crun_path = opts.crun_path; bundle = bundle; id = id; config = some config })
      ≡ exited status
  pub code_is : code ≡ exit_code status
  pub runs :
      h'.runs
      ≡ record { crun_path = opts.crun_path; bundle = bundle; id = id; config = some config }
        ∷ h.runs
  pub registry : SameRegistry h.world h'.world
  pub open_fds : h'.guest.open_fds ≡ h.guest.open_fds
  pub bundles : h'.bundles ≡ h.bundles

-- What an error leaves as it was.
abbrev pub Untouched : ExecHost → ExecHost → Type 0
Untouched h h' = SameRegistry h.world h'.world × (h'.bundles ≡ h.bundles)

module _ (tools : ExecTools) (id : Text) (command : List Text) (opts : ExecOptions)
    (h : ExecHost) where
  executed :
      (entry : ForkEntry) (merged : FilePath) (v : ExecHost) (code : ℕ) (h' : ExecHost)
      → is_empty command ≡ false
      → Still h v
      → fork_at tools.os h.world id ≡ some entry
      → entry.merged_path ≡ some merged
      → exists v.world merged ≡ true
      → Ran tools id command opts merged v code h'
      → Executed tools id command opts h code h'
  executed entry merged v code h' given still known recorded is_there r = record {
    has_command = given;
    entry = entry;
    known = known;
    merged = merged;
    recorded = recorded;
    is_there = ap (λ w. exists w merged) r.world ∙ is_there;
    bundle = r.bundle;
    config = r.config;
    printed = r.printed;
    status = r.status;
    ran = r.ran;
    code_is = r.code_is;
    runs =
        r.runs
        ∙ ap
            (λ rs.
              record {
                crun_path = opts.crun_path;
                bundle = r.bundle;
                id = id;
                config = some r.config;
              }
              ∷ rs)
            still.runs;
    registry = ap (λ w. w.registry_json) r.world ∙ still.registry;
    open_fds = r.open_fds ∙ ap (λ k. k.open_fds) still.guest;
    bundles = r.bundles ∙ still.bundles;
  }

  untouched : (v h' : ExecHost) → Still h v → Same v h' → Untouched h h'
  untouched v h' still same =
      (ap (λ w. w.registry_json) same.0 ∙ still.registry, same.1 ∙ still.bundles)

  Still-Untouched : (v : ExecHost) → Still h v → Untouched h v
  Still-Untouched v still = (still.registry, still.bundles)

  -- A step on the registry that leaves it as it is.
  in_world-Still :
      {A : Type 0} {P : A → Type 0} (v : ExecHost) {r : Result RegistryError A × World}
      → Still h v
      → Outcome (λ a w. P a × SameRegistry v.world w) (λ _ w. SameRegistry v.world w) r
      → Outcome (λ a s. P a × Still h s) (λ _ s. Untouched h s) (with_world r v)
  in_world-Still v still (returned p) = returned (
    p.0,
    record {
      registry = p.1 ∙ still.registry;
      guest = still.guest;
      bundles = still.bundles;
      runs = still.runs;
    },
  )
  in_world-Still v still (raised e) = raised (e ∙ still.registry, still.bundles)

  open-Still :
      (root : FilePath) (v : ExecHost)
      → Still h v
      → Outcome
          (λ _ s. Unit × Still h s)
          (λ _ s. Untouched h s)
          (in_world (open_registry_at tools.os root) v)
  open-Still root v still =
      in_world-Still v still (
        Outcome-weaken (open_registry_effect tools.os v.world root) (λ _ _ k. (tt, k)) (λ _ _ k. k))

  fork-Still :
      (v : ExecHost)
      → Still h v
      → Outcome
          (λ entry s. (fork_at tools.os h.world id ≡ some entry) × Still h s)
          (λ _ s. Untouched h s)
          (in_world (get_fork tools.os id) v)
  fork-Still v still = in_world-Still v still (
      Outcome-weaken (get_fork_effect tools.os v.world id)
        (λ entry w f. (
          ap (λ r. fork_in id (doc_in tools.os r)) (sym still.registry) ∙ f.1,
          ap (λ x. x.registry_json) f.0,
        ))
        (λ _ _ k. ap (λ x. x.registry_json) k))

  required-Still :
      (o : Option FilePath) (v : ExecHost)
      → Still h v
      → Outcome (λ merged s. (o ≡ some merged) × Still h s) (λ _ s. Untouched h s) (required o v)
  required-Still none v still = raised (Still-Untouched v still)
  required-Still (some p) v still = returned (refl, still)

-- If the guest's kernel gives only descriptors that are not open, and a temporary directory is a
-- new one: a run_exec that succeeds was given a command and a fork of the registry with a mount
-- point that exists, has run crun once, on a bundle whose config.json held the config for that
-- command, mount point and the leases that have not expired, returns the code that crun's exit
-- status stands for, and leaves the registry, the open descriptors and the bundles as they were;
-- one that fails leaves the registry and the bundles as they were.
pub run_exec_effect :
    (tools : ExecTools)
    → GivesFresh tools.guest
    → GivesNew tools
    → (id : Text) (command : List Text) (root : FilePath) (opts : ExecOptions) (h : ExecHost)
    → Outcome
        (Executed tools id command opts h)
        (λ _ h'. Untouched h h')
        (run_exec tools id command root opts h)
unfolding run_exec
run_exec_effect tools fresh gives_new id command root opts h =
    Outcome-bind {P = λ _ s. (is_empty command ≡ false) × Still h s} _ _ h
      (given (is_empty command) refl)
      λ _ s1 g. Outcome-bind _ _ s1 (open-Still tools id command opts h root s1 g.1) λ _ s2 o.
        Outcome-bind _ _ s2 (fork-Still tools id command opts h s2 o.1) λ entry s3 f.
          Outcome-bind _ _ s3 (required-Still tools id command opts h entry.merged_path s3 f.1)
            λ merged s4 m.
              Outcome-bind {P = λ _ s. (exists s.world merged ≡ true) × Still h s} _ _ s4
                (Outcome-if (exists s4.world merged) (λ t. returned (t, m.1))
                  (λ _. raised (Still-Untouched tools id command opts h s4 m.1)))
                λ _ s5 x.
                  Outcome-weaken (in_tempdir-Ran tools fresh gives_new id command opts merged s5)
                    (λ code s6 r.
                      executed tools id command opts h entry merged s5 code s6 g.0 x.1 f.0 m.0 x.0
                        r)
                    (λ _ s6 same. untouched tools id command opts h s5 s6 x.1 same)
  where
    given :
        (b : Bool)
        → is_empty command ≡ b
        → Outcome
            (λ _ s. (is_empty command ≡ false) × Still h s)
            (λ _ s. Untouched h s)
            (ensure (not b) no_command h)
    given true e = raised (refl, refl)
    given false e = returned (e, Still-refl h)
