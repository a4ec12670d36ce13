-- ===== src/Tests/Runs.antt =====
-- A host that can run commands, and the theorems on them.
use fastenv.Base.{
  contains, true, arith, ℕ, Text, text, List, [], ◌∷◌, ◌++◌, any, false, Option, none, some, ok,
  ◌≡◌, refl, ◌==◌, nat_Eq, list_Eq, list_eq, Outcome, ◌>>=◌, map_err, lookup, utf8,
}
use fastenv.Os.{create_dirs}
use fastenv.Os.Paths.{FilePath, join}
use fastenv.Registry.{open_registry_at, get_fork, read_doc}
use fastenv.Host.{SecretLease}
use fastenv.GuestEbpf.Object.{check_bytes}
use fastenv.GuestEbpf.Loader.{
  attach, detach, load_tracepoint, load_cgroup_skb, byte_prefix, load_guest_bpf_prog,
  minimal_pass_program, pin_tracepoint, pin_guest_bpf_prog, guest_bpf_pin_path,
}
use fastenv.Exec.Config.{env_entry, host, shares, ExecOptions, build_oci_config}
use fastenv.Exec.Run.{
  Bundle, ExecHost, ExecTools, exited, config_of, config_in, without_bundle, exit_code, start,
  run_in_bundle, run_exec,
}
use fastenv.Exec.Run.Running.{Executed, Untouched, run_exec_effect}
use fastenv.Exec.Secrets.{IsActive, with_leases, config_of-leases}
use fastenv.Tests.Machines.{healthy_platform}
use fastenv.Tests.Guests.{root, key, with_fork}
use fastenv.Tests.GuestLoads.{guest_tools, guest_tools-GivesFresh, guest_kernel}

-- The name of a bundle is new if there is none yet.
abbrev first_bundle : List Bundle → Option FilePath
first_bundle [] = some (text "tmp" ∷ text "bundle" ∷ [])
first_bundle (b ∷ bs) = none

first_bundle_is_new :
    (bs : List Bundle) (p : FilePath) → first_bundle bs ≡ some p → any (λ b. b.path == p) bs ≡ false
first_bundle_is_new [] p e = refl
first_bundle_is_new (b ∷ bs) p e = cc

abbrev read_instant : Text → Option ℕ
read_instant [] = none
read_instant (c ∷ s) = some c

abbrev exec_tools : ExecTools
exec_tools = record {
  os = healthy_platform;
  guest = guest_tools;
  tempdir = first_bundle;
  parse_from_rfc3339 = read_instant;
  now = b'5';
  now_rfc3339 = text "t";
  print_config = λ config. some (config.root_path ++ text ";");
  write_fails = false;
  crun = λ run. exited (record { code = none; signal = some 9 });
}

abbrev lease : Text → Text → SecretLease
lease name expires_at = record {
  secret_name = name;
  scope = text "s";
  expires_at = expires_at;
  secret_value = text "v";
}

abbrev options : ExecOptions
options = record {
  crun_path = text "/usr/bin/crun";
  cpu = some (shares 512);
  memory = none;
  network = host;
  secret_leases = lease (text "OLD") (text "4") ∷ lease (text "NEW") (text "6") ∷ [];
}

abbrev exec_host : ExecHost
exec_host = record {
  world = record with_fork { paths = (text "data" ∷ text "merged" ∷ []) ∷ with_fork.paths };
  guest = guest_kernel;
  bundles = [];
  runs = [];
}

-- A command that a signal ends.
command_ends : (run_exec exec_tools key (text "ls" ∷ []) root options exec_host).0 ≡ ok 137
unfolding run_exec ◌>>=◌ open_registry_at map_err create_dirs get_fork read_doc lookup list_eq
    run_in_bundle attach load_tracepoint load_cgroup_skb byte_prefix utf8 load_guest_bpf_prog
    check_bytes minimal_pass_program pin_tracepoint pin_guest_bpf_prog guest_bpf_pin_path join
    build_oci_config config_in without_bundle start exit_code detach
command_ends = refl

run_exec_effect_example :
    Outcome
      (Executed exec_tools key (text "ls" ∷ []) options exec_host)
      (λ _ h'. Untouched exec_host h')
      (run_exec exec_tools key (text "ls" ∷ []) root options exec_host)
run_exec_effect_example =
    run_exec_effect exec_tools guest_tools-GivesFresh first_bundle_is_new key (text "ls" ∷ []) root
      options exec_host

config_of-leases_example :
    (¬ IsActive exec_tools (lease (text "NEW") (text "6"))
      → config_of exec_tools
          (text "ls" ∷ [])
          root
          (with_leases options (lease (text "OLD") (text "4") ∷ lease (text "NEW") (text "6") ∷ []))
        ≡ config_of exec_tools
            (text "ls" ∷ [])
            root
            (with_leases options (lease (text "OLD") (text "4") ∷ [])))
    × (IsActive exec_tools (lease (text "NEW") (text "6"))
        → contains
            (config_of exec_tools (text "ls" ∷ []) root (
              with_leases options
                (lease (text "OLD") (text "4") ∷ lease (text "NEW") (text "6") ∷ []))).process.env
            (env_entry (lease (text "NEW") (text "6")))
          ≡ true)
config_of-leases_example =
    config_of-leases exec_tools (text "ls" ∷ []) root options (lease (text "OLD") (text "4") ∷ [])
      [] (lease (text "NEW") (text "6"))

-- The new lease is active, so its secret is in the environment.
new-IsActive : IsActive exec_tools (lease (text "NEW") (text "6"))
new-IsActive = (b'6', refl, omega arith)
