-- ===== src/Exec/Run/Steps.antt =====
-- What the steps in the bundle of a run leave behind.
use fastenv.Base.{
  ℕ, Text, false, List, [], ◌∷◌, any, Option, none, some, Result, ◌==◌, nat_Eq, list_Eq, eq_refl,
  ◌≡◌, refl, ap, ◌∙◌, arith, Outcome, returned, raised, Outcome-bind, Outcome-if,
}
use fastenv.Os.Paths.{FilePath}
use fastenv.GuestEbpf.Loader.{GuestKernel, GuestEbpfLoader, Panic, for_container, detach}
use fastenv.GuestEbpf.Loader.Detaching.{GivesFresh, detach-fds}
use fastenv.Exec.Config.{ExecOptions}
use fastenv.Exec.Run.{
  Bundle, CrunRun, ExecHost, ExitStatus, SpawnResult, not_spawned, not_waited, exited, ExecTools,
  ExecError, with_guest, exit_code, config_in, without_bundle, new_bundle, dropped, with_tempdir,
  is_prepared, finished, written, start, config_of, attached, run_in_bundle, in_tempdir,
}

-- A temporary directory is a new one.
abbrev pub GivesNew : ExecTools → Type 0
GivesNew tools =
    (bs : List Bundle) (p : FilePath)
    → tools.tempdir bs ≡ some p
    → any (λ b. b.path == p) bs ≡ false

without_new :
    (p : FilePath) (bs : List Bundle) → any (λ b. b.path == p) bs ≡ false → without_bundle p bs ≡ bs
unfolding without_bundle
without_new p [] h = refl
without_new p (b ∷ bs) h = ground (arith, without_new p bs)

without_twice :
    (p : FilePath) (bs : List Bundle) → without_bundle p (without_bundle p bs) ≡ without_bundle p bs
unfolding without_bundle
without_twice p [] = refl
without_twice p (b ∷ bs) = ground (arith, without_twice p bs)

without_head :
    (p : FilePath) (config : Option Text) (h : ExecHost)
    → without_bundle p (new_bundle p config h).bundles ≡ without_bundle p h.bundles
unfolding without_bundle
without_head p config h = rw (eq_refl p) (without_twice p h.bundles)

-- Beside what it does in its bundle, a step changes nothing but the guest's kernel.
record Inside (p : FilePath) (h s : ExecHost) : Type 0 where
  world : s.world ≡ h.world
  bundles : without_bundle p s.bundles ≡ h.bundles

-- The bundle's config.json is there, and nothing has been run yet.
record Prepared (p : FilePath) (print : Option Text) (h s : ExecHost) : Type 0 where
  config : Text
  printed : print ≡ some config
  inside : Inside p h s
  runs : s.runs ≡ h.runs
  in_bundle : config_in p s.bundles ≡ some config

-- Attached, so that detaching gives the descriptors back.
abbrev Releases : ExecTools → ExecHost → GuestEbpfLoader → ExecHost → Type 0
Releases tools h loader s = (detach tools.guest loader s.guest).open_fds ≡ h.guest.open_fds

-- crun has been run on this config, and has ended with this code.
record Ended (tools : ExecTools) (opts : ExecOptions) (id : Text) (p : FilePath)
    (print : Option Text) (h : ExecHost) (code : ℕ) (s : ExecHost) : Type 0 where
  config : Text
  printed : print ≡ some config
  inside : Inside p h s
  status : ExitStatus
  ran :
      tools.crun (record { crun_path = opts.crun_path; bundle = p; id = id; config = some config })
      ≡ exited status
  code_is : code ≡ exit_code status
  runs :
      s.runs
      ≡ record { crun_path = opts.crun_path; bundle = p; id = id; config = some config } ∷ h.runs

module _ (tools : ExecTools) (p : FilePath) (h : ExecHost)
    (new : without_bundle p h.bundles ≡ h.bundles) where
  created : Inside p h (new_bundle p none h)
  created = record { world = refl; bundles = without_head p none h ∙ new }

  written-Prepared :
      (print : Option Text)
      → Outcome
          (λ _ s. Prepared p print h s × (s.guest ≡ h.guest))
          (λ _ s. Inside p h s)
          (written tools p print (new_bundle p none h))
  unfolding config_in
  written-Prepared none = raised created
  written-Prepared (some config) =
      Outcome-if tools.write_fails (λ _. raised created)
        (λ _. returned (
          record {
            config = config;
            printed = refl;
            inside = record {
              world = refl;
              bundles =
                  without_head p (some config) (new_bundle p none h)
                  ∙ (without_head p none h ∙ new);
            };
            runs = refl;
            in_bundle = rw (eq_refl p) refl;
          },
          refl,
        ))

  attached-Releases :
      (fresh : GivesFresh tools.guest) (id : Text) (print : Option Text) (s : ExecHost)
      → Prepared p print h s
      → s.guest ≡ h.guest
      → Outcome
          (λ loader s'. Prepared p print h s' × Releases tools h loader s')
          (λ _ s'. Inside p h s')
          (attached tools id s)
  attached-Releases fresh id print s ready same =
      go (detach-fds tools.guest fresh tools.now_rfc3339 (for_container id) s.guest)
    where
      go :
          {r : Result Panic GuestEbpfLoader × GuestKernel}
          → Outcome
              (λ loader k. (detach tools.guest loader k).open_fds ≡ s.guest.open_fds)
              (λ _ _. Unit)
              r
          → Outcome
              (λ loader s'. Prepared p print h s' × Releases tools h loader s')
              (λ _ s'. Inside p h s')
              (with_guest r s)
      go (returned e) = returned (
        record {
          config = ready.config;
          printed = ready.printed;
          inside = record { world = ready.inside.world; bundles = ready.inside.bundles };
          runs = ready.runs;
          in_bundle = ready.in_bundle;
        },
        e ∙ ap (λ k. k.open_fds) same,
      )
      go (raised e) = raised (record { world = ready.inside.world; bundles = ready.inside.bundles })

  start-Ended :
      (opts : ExecOptions) (id : Text) (print : Option Text) (loader : GuestEbpfLoader)
      (s : ExecHost)
      → Prepared p print h s
      → Releases tools h loader s
      → Outcome
          (λ code s'. Ended tools opts id p print h code s' × Releases tools h loader s')
          (λ _ s'. Inside p h s')
          (start tools opts.crun_path p id s)
  unfolding start
  start-Ended opts id print loader s ready releases = rw ready.in_bundle (go (tools.crun r) refl)
    where
      r : CrunRun
      r = record { crun_path = opts.crun_path; bundle = p; id = id; config = some ready.config }

      inside : Inside p h (record s { runs = r ∷ s.runs })
      inside = record { world = ready.inside.world; bundles = ready.inside.bundles }

      go :
          (result : SpawnResult)
          → tools.crun r ≡ result
          → Outcome
              (λ code s'. Ended tools opts id p print h code s' × Releases tools h loader s')
              (λ _ s'. Inside p h s')
              (finished result r s)
      go not_spawned e = raised ready.inside
      go not_waited e = raised inside
      go (exited status) e = returned (
        record {
          config = ready.config;
          printed = ready.printed;
          inside = inside;
          status = status;
          ran = e;
          code_is = refl;
          runs = ap (λ rs. r ∷ rs) ready.runs;
        },
        releases,
      )

  run_in_bundle-Ended :
      (fresh : GivesFresh tools.guest)
      → (id : Text) (command : List Text) (opts : ExecOptions) (merged : FilePath)
      → Outcome
          (λ code s.
            Ended tools opts id p
              (tools.print_config (config_of tools command merged opts))
              h
              code
              s
            × (s.guest.open_fds ≡ h.guest.open_fds))
          (λ _ s. Inside p h s)
          (run_in_bundle tools id command opts merged p (new_bundle p none h))
  unfolding run_in_bundle
  run_in_bundle-Ended fresh id command opts merged =
      Outcome-bind _ _ _ (written-Prepared print) λ _ s1 w.
        Outcome-bind _ _ s1 (attached-Releases fresh id print s1 w.0 w.1) λ loader s2 a.
          Outcome-bind {P = λ _ s. Prepared p print h s × Releases tools h loader s} _ _ s2
            (Outcome-if (is_prepared (config_in p s2.bundles)) (λ _. returned a)
              (λ _. raised a.0.inside))
            λ _ s3 c. Outcome-bind _ _ s3 (start-Ended opts id print loader s3 c.0 c.1) λ code s4 e.
              Outcome-bind
                {P = λ _ s.
                  Ended tools opts id p print h code s × (s.guest.open_fds ≡ h.guest.open_fds)}
                _ _ s4
                (returned (
                  record {
                    config = e.0.config;
                    printed = e.0.printed;
                    inside = record { world = e.0.inside.world; bundles = e.0.inside.bundles };
                    status = e.0.status;
                    ran = e.0.ran;
                    code_is = e.0.code_is;
                    runs = e.0.runs;
                  },
                  e.1,
                ))
                λ _ s5 d. returned d
    where
      print : Option Text
      print = tools.print_config (config_of tools command merged opts)

-- A run that has ended with this code.
pub record Ran (tools : ExecTools) (id : Text) (command : List Text) (opts : ExecOptions)
    (merged : FilePath) (h : ExecHost) (code : ℕ) (h' : ExecHost) : Type 0 where
  pub bundle : FilePath
  pub config : Text
  pub printed : tools.print_config (config_of tools command merged opts) ≡ some config
  pub status : ExitStatus
  pub ran :
      tools.crun
        (record { crun_path = opts.crun_path; bundle = bundle; id = id; config = some config })
      ≡ exited status
  pub code_is : code ≡ exit_code status
  pub runs :
      h'.runs
      ≡ record { crun_path = opts.crun_path; bundle = bundle; id = id; config = some config }
        ∷ h.runs
  pub world : h'.world ≡ h.world
  pub open_fds : h'.guest.open_fds ≡ h.guest.open_fds
  pub bundles : h'.bundles ≡ h.bundles

-- An error leaves no bundle behind.
abbrev pub Same : ExecHost → ExecHost → Type 0
Same h h' = (h'.world ≡ h.world) × (h'.bundles ≡ h.bundles)

module _ (tools : ExecTools) (fresh : GivesFresh tools.guest) (gives_new : GivesNew tools)
    (id : Text) (command : List Text) (opts : ExecOptions) where
  dropped-Ran :
      (merged p : FilePath) (h : ExecHost)
      → {r : Result ExecError ℕ × ExecHost}
      → Outcome
          (λ code s.
            Ended tools opts id p
              (tools.print_config (config_of tools command merged opts))
              h
              code
              s
            × (s.guest.open_fds ≡ h.guest.open_fds))
          (λ _ s. Inside p h s)
          r
      → Outcome (Ran tools id command opts merged h) (λ _ s. Same h s) (dropped p r)
  dropped-Ran merged p h (returned e) = returned (record {
    bundle = p;
    config = e.0.config;
    printed = e.0.printed;
    status = e.0.status;
    ran = e.0.ran;
    code_is = e.0.code_is;
    runs = e.0.runs;
    world = e.0.inside.world;
    open_fds = e.1;
    bundles = e.0.inside.bundles;
  })
  dropped-Ran merged p h (raised inside) = raised (inside.world, inside.bundles)

  pub in_tempdir-Ran :
      (merged : FilePath) (h : ExecHost)
      → Outcome
          (Ran tools id command opts merged h)
          (λ _ s. Same h s)
          (in_tempdir tools id command opts merged h)
  in_tempdir-Ran merged h = go (tools.tempdir h.bundles) refl
    where
      go :
          (made : Option FilePath)
          → tools.tempdir h.bundles ≡ made
          → Outcome
              (Ran tools id command opts merged h)
              (λ _ s. Same h s)
              (with_tempdir made (run_in_bundle tools id command opts merged) h)
      go none e = raised (refl, refl)
      go (some p) e = dropped-Ran merged p h (
          run_in_bundle-Ended tools p h (without_new p h.bundles (gives_new h.bundles p e)) fresh id
            command opts merged)
