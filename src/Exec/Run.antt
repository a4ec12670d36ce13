-- ===== src/Exec/Run.antt =====
-- src/exec.rs and src/container_runtime.rs: `run_exec` with the crun backend. The state has the
-- registry and the paths, the guest's kernel, the bundles that exist and the runs of crun; what a
-- container does to its files is not part of it.

pub mod Steps
pub mod Running
use fastenv.Base.{
  ℕ, ◌+◌, Text, text, Bool, true, false, not, List, [], ◌∷◌, filter, Option, none, some, Result, ok,
  err, Io, pure, fail, ◌>>=◌, ◌>>◌, map_err, ◌==◌, nat_Eq, list_Eq, if◌then◌else◌, unwrap_or,
}
use fastenv.Schema.{ForkEntry}
use fastenv.Os.{World, Platform, exists}
use fastenv.Os.Paths.{FilePath}
use fastenv.Registry.{RegistryError, open_registry_at, get_fork}
use fastenv.GuestEbpf.Loader.{
  GuestKernel, GuestTools, GuestEbpfLoader, Panic, for_container, attach, detach,
}
use fastenv.Exec.Config.{ExecOptions, OciConfig, build_oci_config, active_leases}

-- A temporary directory, with its config.json.
pub record Bundle : Type 0 where
  pub path : FilePath
  pub config : Option Text

-- `crun run --bundle <bundle> <id>`, and what the bundle's config.json held.
pub record CrunRun : Type 0 where
  pub crun_path : Text
  pub bundle : FilePath
  pub id : Text
  pub config : Option Text

pub record ExecHost : Type 0 where
  pub world : World
  pub guest : GuestKernel
  pub bundles : List Bundle
  pub runs : List CrunRun

pub record ExitStatus : Type 0 where
  pub code : Option ℕ
  pub signal : Option ℕ

pub data SpawnResult : Type 0 where
  not_spawned not_waited : SpawnResult
  exited : ExitStatus → SpawnResult

pub record ExecTools : Type 0 where
  pub os : Platform
  pub guest : GuestTools
  -- A new directory beside those that exist.
  pub tempdir : List Bundle → Option FilePath
  pub parse_from_rfc3339 : Text → Option ℕ
  pub now : ℕ
  pub now_rfc3339 : Text
  pub print_config : OciConfig → Option Text
  pub write_fails : Bool
  pub crun : CrunRun → SpawnResult

pub data ExecError : Type 0 where
  no_command not_mounted merged_missing no_tempdir not_serialised not_written panicked no_config
        crun_not_spawned crun_not_waited :
      ExecError
  registry_error : RegistryError → ExecError

abbrev pub Exec : Type 0 → Type 0
Exec = Io ExecHost ExecError

module _ {A : Type 0} where
  abbrev pub with_world : Result RegistryError A × World → ExecHost → Result ExecError A × ExecHost
  with_world (ok a, w) h = (ok a, record h { world = w })
  with_world (err e, w) h = (err (registry_error e), record h { world = w })

  abbrev pub in_world : Io World RegistryError A → Exec A
  in_world m h = with_world (m h.world) h

  abbrev pub with_guest : Result Panic A × GuestKernel → ExecHost → Result ExecError A × ExecHost
  with_guest (ok a, k) h = (ok a, record h { guest = k })
  with_guest (err e, k) h = (err panicked, record h { guest = k })

abbrev pub ensure : Bool → ExecError → Exec Unit
ensure b e h = if b then (ok tt, h) else (err e, h)

abbrev pub required : Option FilePath → Exec FilePath
required none h = (err not_mounted, h)
required (some p) h = (ok p, h)

abbrev pub is_empty : List Text → Bool
is_empty [] = true
is_empty (x ∷ xs) = false

-- The exit code that a shell would show.
unfoldable pub exit_code : ExitStatus → ℕ
exit_code status = of_code status.code
  where
    of_code : Option ℕ → ℕ
    of_code (some code) = code
    of_code none = unwrap_or 1 status.signal + 128

-- The contents of the bundle's config.json, if it is there.
unfoldable pub config_in : FilePath → List Bundle → Option Text
config_in bundle [] = none
config_in bundle (b ∷ bs) = if b.path == bundle then b.config else config_in bundle bs

unfoldable pub without_bundle : FilePath → List Bundle → List Bundle
without_bundle bundle bs = filter (λ b. not (b.path == bundle)) bs

abbrev pub new_bundle : FilePath → Option Text → ExecHost → ExecHost
new_bundle bundle config h = record h {
  bundles = record { path = bundle; config = config } ∷ without_bundle bundle h.bundles;
}

-- `TempDir` removes its directory whatever happens.
abbrev pub dropped :
    {A : Type 0} → FilePath → Result ExecError A × ExecHost → Result ExecError A × ExecHost
dropped bundle (r, h) = (r, record h { bundles = without_bundle bundle h.bundles })

abbrev pub with_tempdir : {A : Type 0} → Option FilePath → (FilePath → Exec A) → Exec A
with_tempdir none body h = (err no_tempdir, h)
with_tempdir (some bundle) body h = dropped bundle (body bundle (new_bundle bundle none h))

-- `CrunBackend::create`
abbrev pub is_prepared : Option Text → Bool
is_prepared none = false
is_prepared (some config) = true

abbrev pub create : FilePath → Exec Unit
create bundle h = ensure (is_prepared (config_in bundle h.bundles)) no_config h

abbrev pub crun_run : Text → FilePath → Text → ExecHost → CrunRun
crun_run crun_path bundle id h = record {
  crun_path = crun_path;
  bundle = bundle;
  id = id;
  config = config_in bundle h.bundles;
}

abbrev pub finished : SpawnResult → CrunRun → Exec ℕ
finished not_spawned r h = (err crun_not_spawned, h)
finished not_waited r h = (err crun_not_waited, record h { runs = r ∷ h.runs })
finished (exited status) r h = (ok (exit_code status), record h { runs = r ∷ h.runs })

module _ (tools : ExecTools) where
  abbrev pub written : FilePath → Option Text → Exec Unit
  written bundle none h = (err not_serialised, h)
  written bundle (some config) h =
      if tools.write_fails then (err not_written, h) else (ok tt, new_bundle bundle (some config) h)

  -- `CrunBackend::start`
  unfoldable pub start : Text → FilePath → Text → Exec ℕ
  start crun_path bundle id h =
      finished (tools.crun (crun_run crun_path bundle id h)) (crun_run crun_path bundle id h) h

  abbrev pub config_of : List Text → FilePath → ExecOptions → OciConfig
  config_of command merged opts =
      build_oci_config command merged opts
        (active_leases tools.parse_from_rfc3339 tools.now opts.secret_leases)

  abbrev pub attached : Text → Exec GuestEbpfLoader
  attached fork_id h =
      with_guest (attach tools.guest tools.now_rfc3339 (for_container fork_id) h.guest) h

  abbrev pub detached : GuestEbpfLoader → Exec Unit
  detached loader h = (ok tt, record h { guest = detach tools.guest loader h.guest })

  -- Steps 3 to 6. `delete` does nothing for crun.
  unfoldable pub run_in_bundle : Text → List Text → ExecOptions → FilePath → FilePath → Exec ℕ
  run_in_bundle fork_id command opts merged bundle = do
    written bundle (tools.print_config (config_of command merged opts))
    loader ← attached fork_id
    create bundle
    code ← start opts.crun_path bundle fork_id
    detached loader
    pure code

  abbrev pub in_tempdir : Text → List Text → ExecOptions → FilePath → Exec ℕ
  in_tempdir fork_id command opts merged h =
      with_tempdir (tools.tempdir h.bundles) (run_in_bundle fork_id command opts merged) h

  unfoldable pub run_exec : Text → List Text → FilePath → ExecOptions → Exec ℕ
  run_exec fork_id command root opts = do
    ensure (not (is_empty command)) no_command
    in_world (open_registry_at tools.os root)
    entry ← in_world (get_fork tools.os fork_id)
    merged ← required entry.merged_path
    λ h. ensure (exists h.world merged) merged_missing h
    in_tempdir fork_id command opts merged
