-- ===== src/Exec/Config.antt =====
-- src/exec.rs: the options of a run and `build_oci_config`. The annotations are an association
-- list, as the hash maps are; what prints the config sorts them.
use fastenv.Base.{
  ℕ, ◌-◌, ◌^◌, Text, text, has_char, parse_unsigned, HashMap, insert, Bool, true, false, ◌||◌, List,
  [], ◌∷◌, ◌++◌, map, Option, none, some, Result, ok, err, ltb, filter, if◌then◌else◌,
}
use fastenv.Os.Paths.{FilePath, display}
use fastenv.Host.{SecretLease}

pub data CpuSpec : Type 0 where
  shares : ℕ → CpuSpec
  cpuset : Text → CpuSpec

-- `isolated` is the source's `None`.
pub data GuestNetworkMode : Type 0 where
  host isolated package_mirror_only allowlist audited_egress : GuestNetworkMode

unfoldable pub requires_netns : GuestNetworkMode → Bool
requires_netns host = false
requires_netns isolated = true
requires_netns package_mirror_only = true
requires_netns allowlist = true
requires_netns audited_egress = true

unfoldable pub mode_label : GuestNetworkMode → Text
mode_label host = text "host"
mode_label isolated = text "none"
mode_label package_mirror_only = text "package-mirror-only"
mode_label allowlist = text "allowlist"
mode_label audited_egress = text "audited-egress"

pub record ExecOptions : Type 0 where
  pub crun_path : Text
  pub cpu : Option CpuSpec
  pub memory : Option ℕ
  pub network : GuestNetworkMode
  pub secret_leases : List SecretLease

abbrev as_shares : Text → Option ℕ → Result Text CpuSpec
as_shares s none = err s
as_shares s (some n) = ok (shares n)

unfoldable pub parse_cpu_spec : Text → Result Text CpuSpec
parse_cpu_spec s =
    if has_char b'-' s || has_char b',' s
    then ok (cpuset s)
    else as_shares s (parse_unsigned (2 ^ 64) s)

-- i64
pub data ℤ : Type 0 where
  pos negsuc : ℕ → ℤ

-- `m as i64`
unfoldable pub as_i64 : ℕ → ℤ
as_i64 m = if ltb m (2 ^ 63) then pos m else negsuc (2 ^ 64 - 1 - m)

pub record OciMount : Type 0 where
  pub destination : Text
  pub mount_type : Text
  pub source : Text
  pub options : List Text

pub record OciCpuResources : Type 0 where
  pub shares : Option ℕ
  pub cpus : Option Text

pub record OciResources : Type 0 where
  pub cpu : Option OciCpuResources
  pub memory_limit : Option ℤ

pub record OciProcess : Type 0 where
  pub terminal : Bool
  pub uid : ℕ
  pub gid : ℕ
  pub args : List Text
  pub env : List Text
  pub cwd : Text

pub record OciConfig : Type 0 where
  pub oci_version : Text
  pub process : OciProcess
  pub root_path : Text
  pub root_readonly : Bool
  pub mounts : List OciMount
  -- The types of the namespaces, none of which has a path.
  pub namespaces : List Text
  pub resources : Option OciResources
  pub annotations : HashMap Text

unfoldable pub namespaces_for : GuestNetworkMode → List Text
namespaces_for mode =
    (text "pid" ∷ text "mount" ∷ []) ++ (if requires_netns mode then text "network" ∷ [] else [])

unfoldable pub mode_annotations : GuestNetworkMode → HashMap Text → HashMap Text
mode_annotations isolated a = insert (text "fastenv.guest.network.egress") (text "blocked") a
mode_annotations package_mirror_only a =
    insert (text "fastenv.guest.network.egress") (text "restricted")
      (insert (text "fastenv.guest.network.purpose") (text "package-mirror") a)
mode_annotations allowlist a =
    insert (text "fastenv.guest.network.egress") (text "restricted")
      (insert (text "fastenv.guest.network.purpose") (text "allowlist") a)
mode_annotations audited_egress a =
    insert (text "fastenv.guest.network.egress") (text "audited")
      (insert (text "fastenv.guest.network.purpose") (text "audited-egress") a)
mode_annotations host a = insert (text "fastenv.guest.policy-loader") (text "deferred") a

abbrev pub cpu_resources : Option CpuSpec → Option OciCpuResources
cpu_resources none = none
cpu_resources (some (shares n)) = some (record { shares = some n; cpus = none })
cpu_resources (some (cpuset s)) = some (record { shares = none; cpus = some s })

abbrev pub memory_limit_of : Option ℕ → Option ℤ
memory_limit_of none = none
memory_limit_of (some m) = some (as_i64 m)

unfoldable pub resources_for : Option CpuSpec → Option ℕ → Option OciResources
resources_for none none = none
resources_for (some spec) memory =
    some (record { cpu = cpu_resources (some spec); memory_limit = memory_limit_of memory })
resources_for none (some m) = some (record { cpu = none; memory_limit = some (as_i64 m) })

abbrev pub base_path : Text
base_path = text "PATH=/usr/local/sbin:/usr/local/bin:/usr/sbin:/usr/bin:/sbin:/bin"

abbrev pub env_entry : SecretLease → Text
env_entry lease = lease.secret_name ++ b'=' ∷ lease.secret_value

abbrev pub default_mounts : List OciMount
default_mounts =
    record {
      destination = text "/proc";
      mount_type = text "proc";
      source = text "proc";
      options = [];
    }
    ∷ record {
      destination = text "/dev";
      mount_type = text "tmpfs";
      source = text "tmpfs";
      options = text "nosuid" ∷ text "strictatime" ∷ text "mode=755" ∷ text "size=65536k" ∷ [];
    }
    ∷ record {
      destination = text "/sys";
      mount_type = text "sysfs";
      source = text "sysfs";
      options = text "nosuid" ∷ text "noexec" ∷ text "nodev" ∷ text "ro" ∷ [];
    }
    ∷ []

unfoldable pub build_oci_config : List Text → FilePath → ExecOptions → List SecretLease → OciConfig
build_oci_config command merged_path opts active_leases = record {
  oci_version = text "1.0.0";
  process = record {
    terminal = false;
    uid = 0;
    gid = 0;
    args = command;
    env = base_path ∷ map env_entry active_leases;
    cwd = text "/";
  };
  root_path = display merged_path;
  root_readonly = false;
  mounts = default_mounts;
  namespaces = namespaces_for opts.network;
  resources = resources_for opts.cpu opts.memory;
  annotations = mode_annotations opts.network (
      insert (text "fastenv.guest.policy-plane") (text "guest")
        (insert (text "fastenv.guest.network-mode") (mode_label opts.network) []));
}

abbrev pub not_expired : ℕ → Option ℕ → Bool
not_expired now none = false
not_expired now (some expiry) = ltb now expiry

-- `parse_from_rfc3339` gives an instant.
unfoldable pub active_leases : (Text → Option ℕ) → ℕ → List SecretLease → List SecretLease
active_leases parse_from_rfc3339 now leases =
    filter (λ lease. not_expired now (parse_from_rfc3339 lease.expires_at)) leases
