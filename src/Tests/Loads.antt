-- ===== src/Tests/Loads.antt =====
-- Tools and a kernel on which a program can be loaded, and the theorems on loading.
use fastenv.Base.{
  Text, text, Bool, true, false, not, List, [], ◌∷◌, filter, none, some, refl, ◌==◌, nat_Eq,
  list_Eq, list_eq, if◌then◌else◌, Outcome,
}
use fastenv.Os.Paths.{FilePath}
use fastenv.HostEbpf.AttachPoint.{parse_attach_point}
use fastenv.HostEbpf.Load.{Kernel, Tools, TcFilter, load_and_attach_host_ebpf}
use fastenv.HostEbpf.Load.Steps.{Attached, Unpinned}
use fastenv.HostEbpf.Load.Attaching.{load_and_attach_host_ebpf-Attached}
use fastenv.HostEbpf.Load.Detaching.{is_at, TcDeletes}
use fastenv.Tests.Ebpf.{object}

-- `tc` with arguments of these numbers: `qdisc add` and `filter del` have five, `filter add` more.
abbrev tc_run : List Text → List TcFilter → Bool × List TcFilter
tc_run [] fs = (false, fs)
tc_run (a ∷ []) fs = (false, fs)
tc_run (a ∷ b ∷ []) fs = (false, fs)
tc_run (a ∷ b ∷ c ∷ []) fs = (false, fs)
tc_run (a ∷ b ∷ c ∷ device ∷ []) fs = (false, fs)
tc_run (a ∷ b ∷ c ∷ device ∷ direction ∷ []) fs =
    if a == text "filter"
    then (true, filter (λ f. not (is_at device direction f)) fs)
    else (true, fs)
tc_run (a ∷ b ∷ c ∷ device ∷ direction ∷ rest) fs =
    (true, record { device = device; direction = direction } ∷ fs)

abbrev pub tools : Tools
tools = record {
  unreadable = λ p. false;
  bpf_prog_load = λ attr. some 7;
  run_tc = λ args fs. some (tc_run args fs);
  create_dir_fails = λ p. false;
  bpf_obj_pin_fails = λ p. false;
  remove_file_fails = λ p. false;
}

pub tools-TcDeletes : TcDeletes tools
unfolding list_eq
tools-TcDeletes device direction fs = refl

abbrev pub object_path : FilePath
object_path = text "o" ∷ []

abbrev pub kernel : Kernel
kernel = record {
  objects = λ p. if p == object_path then some object else none;
  loaded = [];
  filters = [];
  bpffs = [];
}

load_and_attach_host_ebpf-Attached_example :
    Outcome
      (Attached tools
        (text "t")
        (text "p")
        (text "n")
        object_path
        (parse_attach_point (text "tc-ingress:tap0"))
        kernel)
      (Unpinned tools (text "t") (text "p") (text "n") object_path kernel)
      (load_and_attach_host_ebpf tools
        (text "t")
        (text "p")
        (text "n")
        object_path
        (text "tc-ingress:tap0")
        kernel)
load_and_attach_host_ebpf-Attached_example =
    load_and_attach_host_ebpf-Attached tools (text "t") (text "p") (text "n") object_path
      (text "tc-ingress:tap0") kernel
