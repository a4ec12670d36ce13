-- ===== src/HostEbpf/Ring.antt =====
-- src/host_ebpf.rs: the consumer of the perf ring buffer. The data pages are a list of bytes, as
-- many as a power of two, so that `& (data_len - 1)` is the rest of a division by their number.
-- One pass over the records up to the head that the kernel has written is modelled; waiting for a
-- new head, and the thread that is told to stop, are not.
pub mod Slices
pub mod Copying
pub mod Ending
pub mod Records
pub mod Draining
pub mod Decoding
use fastenv.Base.{
  ℕ, zero, suc, ◌+◌, ◌-◌, ◌/◌, ◌%◌, ◌^◌, Text, text, Bytes, from_utf8_lossy, length, take, drop,
  get_elem?, Bool, true, false, ◌&&◌, ◌||◌, List, [], ◌∷◌, ◌++◌, Option, none, some, ◌==◌, nat_Eq,
  ltb, leb, if◌then◌else◌,
}
use fastenv.HostEbpf.Elf.{from_le, until_zero}

pub record PolicyDecisionEvent : Type 0 where
  pub prog_name : Text
  pub action : Text
  pub raw_payload : Bytes

-- A byte in decimal.
abbrev digit : ℕ → ℕ
digit n = b'0' + n % 10

unfoldable pub print_u8 : ℕ → Text
print_u8 v =
    if ltb v 10
    then digit v ∷ []
    else if ltb v 100
    then digit (v / 10) ∷ digit v ∷ []
    else digit (v / 100) ∷ digit (v / 10) ∷ digit v ∷ []

-- The action is the byte after the name's 16, if the payload has one.
abbrev action_of : Option ℕ → Text
action_of none = text "unknown"
action_of (some v) = if v == 0 then text "allow" else if v == 1 then text "deny" else print_u8 v

unfoldable pub decode_policy_event : Bytes → PolicyDecisionEvent
decode_policy_event payload = record {
  prog_name =
      if leb 16 (length payload)
      then from_utf8_lossy (until_zero (take 16 payload))
      else text "unknown";
  action = action_of (get_elem? payload 16);
  raw_payload = payload;
}

-- The payload at an offset, copied in two parts where it wraps around the end of the ring.
unfoldable pub copy_payload : Bytes → ℕ → ℕ → Bytes
copy_payload ring payload_offset payload_len =
    let data_len = length ring in
    if leb (payload_offset + payload_len) data_len
    then take payload_len (drop payload_offset ring)
    else let first_len = data_len - payload_offset in
      take first_len (drop payload_offset ring) ++ take (payload_len - first_len) ring

pub record Cursor : Type 0 where
  pub read_head : ℕ
  -- The events that are logged, in this order.
  pub events : List PolicyDecisionEvent

-- What one round of the loop, or the whole loop, leaves. A header that lies across the end of the
-- ring is read from outside the mapping.
pub data Round : Type 0 where
  continues stops : Cursor → Round
  outside : Round

pub data Pass : Type 0 where
  finished : Cursor → Pass
  read_outside out_of_fuel : Pass

abbrev perf_record_sample : ℕ
perf_record_sample = 9

abbrev pub add_u64 : ℕ → ℕ → ℕ
add_u64 a b = (a + b) % 2 ^ 64

-- The record's event, if it is a sample with a payload.
unfoldable pub log_record : Bytes → ℕ → ℕ → ℕ → List PolicyDecisionEvent
log_record ring offset record_type record_size =
    if record_type == perf_record_sample && ltb 8 record_size
    then decode_policy_event (copy_payload ring ((offset + 8) % length ring) (record_size - 8)) ∷ []
    else []

unfoldable pub read_record : Bytes → ℕ → Cursor → Round
read_record ring offset c =
    let record_type = from_le (take 4 (drop offset ring)) in
    let record_size = from_le (take 2 (drop (offset + 6) ring)) in
    if record_size == 0 || ltb (length ring) record_size
    then stops (record c { read_head = add_u64 c.read_head 8 })
    else continues (record {
      read_head = add_u64 c.read_head record_size;
      events = c.events ++ log_record ring offset record_type record_size;
    })

unfoldable pub round : Bytes → ℕ → Cursor → Round
round ring data_head c =
    let offset = c.read_head % length ring in
    if ltb (data_head - c.read_head) 8
    then stops c
    else if ltb (length ring) (offset + 8)
    then outside
    else read_record ring offset c

abbrev pub after_round : Round → (Cursor → Pass) → Pass
after_round (continues c) rest = rest c
after_round (stops c) rest = finished c
after_round outside rest = read_outside

-- `while read_head < data_head`
unfoldable pub consume : ℕ → Bytes → ℕ → Cursor → Pass
consume zero ring data_head c = if ltb c.read_head data_head then out_of_fuel else finished c
consume (suc n) ring data_head c =
    if ltb c.read_head data_head
    then after_round (round ring data_head c) (λ next. consume n ring data_head next)
    else finished c

-- A round advances by a byte at least, so the bytes between the heads are fuel enough.
unfoldable pub drain : Bytes → ℕ → Cursor → Pass
drain ring data_head c = consume (data_head - c.read_head) ring data_head c
