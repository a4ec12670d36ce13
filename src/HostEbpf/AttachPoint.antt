-- ===== src/HostEbpf/AttachPoint.antt =====
-- src/host_ebpf.rs: the attach points, and the handles of the programs attached by `tc`.
use fastenv.Base.{
  Text, text, strip_prefix, split_once, split_once-append, has_char, ◌∷◌, ◌++◌, Option, none, some,
  ◌≡◌, false, refl, ◌==◌, nat_Eq, list_Eq, list_eq, if◌then◌else◌,
}

pub data TcDirection : Type 0 where
  ingress egress : TcDirection

pub data AttachPoint : Type 0 where
  tc : Text → TcDirection → AttachPoint
  tracepoint : Text → Text → AttachPoint
  kprobe : Text → AttachPoint
  raw : Text → AttachPoint

-- The attempts in the order of the code, each with what comes after it.
abbrev or_tc : TcDirection → Option Text → AttachPoint → AttachPoint
or_tc direction none next = next
or_tc direction (some rest) next = tc rest direction

abbrev or_kprobe : Text → Option Text → AttachPoint
or_kprobe s none = raw s
or_kprobe s (some func) = kprobe func

abbrev or_event : Option (Text × Text) → AttachPoint → AttachPoint
or_event none next = next
or_event (some (cat, evt)) next = tracepoint cat evt

abbrev or_tracepoint : Option Text → AttachPoint → AttachPoint
or_tracepoint none next = next
or_tracepoint (some rest) next = or_event (split_once b'/' rest) next

unfoldable pub parse_attach_point : Text → AttachPoint
parse_attach_point s = or_tc ingress (strip_prefix (text "tc-ingress:") s) (
    or_tc egress (strip_prefix (text "tc-egress:") s) (
      or_tracepoint (strip_prefix (text "tracepoint:") s)
        (or_kprobe s (strip_prefix (text "kprobe:") s))))

-- The form of an attach point that the documentation of the type gives.
unfoldable pub print_attach_point : AttachPoint → Text
print_attach_point (tc device ingress) = text "tc-ingress:" ++ device
print_attach_point (tc device egress) = text "tc-egress:" ++ device
print_attach_point (tracepoint category event) = text "tracepoint:" ++ category ++ b'/' ∷ event
print_attach_point (kprobe function) = text "kprobe:" ++ function
print_attach_point (raw s) = s

-- What such a text can carry: no category with a slash. A raw text is what no prefix starts.
unfoldable pub Printable : AttachPoint → Type 0
Printable (tc device direction) = Unit
Printable (tracepoint category event) = has_char b'/' category ≡ false
Printable (kprobe function) = Unit
Printable (raw s) =
    (strip_prefix (text "tc-ingress:") s ≡ none)
    × (strip_prefix (text "tc-egress:") s ≡ none)
    × (strip_prefix (text "tracepoint:") s ≡ none)
    × (strip_prefix (text "kprobe:") s ≡ none)

-- An attach point is parsed back from its documented text, if a tracepoint's category has no slash
-- and a raw text does not start like one of the others.
pub parse_attach_point-print_attach_point :
    (p : AttachPoint) → Printable p → parse_attach_point (print_attach_point p) ≡ p
unfolding parse_attach_point print_attach_point Printable strip_prefix
parse_attach_point-print_attach_point (tc device ingress) h = refl
parse_attach_point-print_attach_point (tc device egress) h = refl
parse_attach_point-print_attach_point (tracepoint category event) h =
    rw (split_once-append b'/' category event h) refl
parse_attach_point-print_attach_point (kprobe function) h = refl
parse_attach_point-print_attach_point (raw s) h = rw (h.0, h.1, h.2, h.3) refl

-- `handle.splitn(3, ':')`, of which exactly three parts are accepted.
abbrev three_parts : Text → Option (Text × Text) → Option (Text × Text × Text)
three_parts first none = none
three_parts first (some (device, direction)) = some (first, device, direction)

unfoldable pub splitn_3 : Text → Option (Text × Text × Text)
splitn_3 s = elim (split_once b':' s) [
  | none ↦ none
  | some (first, rest) ↦ three_parts first (split_once b':' rest)
]

unfoldable pub dir_str : TcDirection → Text
dir_str ingress = text "ingress"
dir_str egress = text "egress"

unfoldable pub tc_handle : Text → TcDirection → Text
unfolding dir_str
tc_handle device direction = text "tc:" ++ device ++ b':' ∷ dir_str direction

-- The device and the direction that `tc_detach_bpf` reads from a handle.
abbrev tc_parts : Option (Text × Text × Text) → Option (Text × Text)
tc_parts none = none
tc_parts (some (first, device, direction)) =
    if first == text "tc" then some (device, direction) else none

unfoldable pub parse_tc_handle : Text → Option (Text × Text)
unfolding splitn_3
parse_tc_handle handle = tc_parts (splitn_3 handle)

pub parse_tc_handle-tc_handle :
    (device : Text) (direction : TcDirection)
    → has_char b':' device ≡ false
    → parse_tc_handle (tc_handle device direction) ≡ some (device, dir_str direction)
unfolding parse_tc_handle tc_handle splitn_3 split_once list_eq
parse_tc_handle-tc_handle device direction h =
    rw (split_once-append b':' device (dir_str direction) h) refl
