-- ===== src/Tests/Machines.antt =====
-- A platform and a machine on which no call fails, or on which the calls of a list fail.
use fastenv.Base.{
  ℕ, Text, text, Bool, true, false, [], ◌∷◌, ◌++◌, nat_Eq, list_Eq, Option, none, some, ◌≡◌, ◌≢◌,
  refl, ap, ◌∙◌,
}
use fastenv.Os.{Call, Platform, MountRequest}
use fastenv.Os.Paths.{FilePath, display}
use fastenv.Os.Mounts.{is_listed}
use fastenv.Registry.View.{IsCodec, IsHealthy}
use fastenv.Host.{HostCall}
use fastenv.Host.Disk.{Machine}
use fastenv.Host.Disk.Records
use fastenv.Tests.Loads.{tools}
use fastenv.Tests.Codes.{doc, vm}

abbrev value : {A : Type 0} → Option (A × Text) → Option A
value none = none
value (some (a, rest)) = some a

-- A mount adds a line, if the line lists its target.
abbrev mount_line : MountRequest → Text → Text
mount_line r mounts = r.source ++ b' ' ∷ display r.target ++ text " none rw 0 0\n" ++ mounts

abbrev checked : Bool → Text → Option Text
checked true mounts = some mounts
checked false mounts = none

abbrev pub platform : (Call → Bool) → Platform
platform fails = record {
  print_doc = λ d. doc.enc d [];
  parse_doc = λ t. value (doc.dec t);
  mount = λ r mounts. checked (is_listed r.target (mount_line r mounts)) (mount_line r mounts);
  unmount = λ p mounts. some [];
  fails = fails;
  survives = λ p. false;
  write_fails = false;
  stored = λ t. t;
  persist_fails = false;
}

abbrev pub healthy_platform : Platform
healthy_platform = platform (λ c. false)

pub platform-IsCodec : (fails : Call → Bool) → IsCodec (platform fails)
platform-IsCodec fails = record {
  parse-print =
      λ d. (d, ap value (doc.dec-enc d []), record { bases = λ k. refl; forks = λ k. refl });
  flushes = λ t. refl;
}

pub platform-IsHealthy : IsHealthy healthy_platform
platform-IsHealthy = record { calls = λ c. refl; writes = refl; persists = refl }

pub platform-unmounts :
    (p : FilePath) (mounts : Text)
    → is_listed p mounts ≡ true
    → healthy_platform.unmount p mounts ≢ none
platform-unmounts p mounts h e = cc

abbrev without_last : Text → Text
without_last [] = []
without_last (c ∷ []) = []
without_last (c ∷ d ∷ s) = c ∷ without_last (d ∷ s)

without_last-snoc : (s : Text) (c : ℕ) → without_last (s ++ c ∷ []) ≡ s
without_last-snoc [] c = refl
without_last-snoc (d ∷ []) c = refl
without_last-snoc (d ∷ e ∷ s) c = ap (◌∷◌ d) (without_last-snoc (e ∷ s) c)

abbrev pub machine : (HostCall → Bool) → Machine
machine fails = record {
  fails = fails;
  print_record = λ r. vm.enc r [];
  parse_record = λ t. value (vm.dec (without_last t));
  made = λ p. false;
  survives = λ p. false;
  tools = tools;
}

pub machine-IsCodec : (fails : HostCall → Bool) → Records.IsCodec (machine fails)
machine-IsCodec fails = record {
  parse-print = λ r.
      ap (λ t. value (vm.dec t)) (without_last-snoc (vm.enc r []) 10) ∙ ap value (vm.dec-enc r []);
}

abbrev pub healthy_machine : Machine
healthy_machine = machine (λ c. false)
