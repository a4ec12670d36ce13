-- ===== src/HostEbpf/Ring/Records.antt =====
-- The records that the kernel writes into the ring, and what one round reads of them.
use fastenv.Base.{
  ℕ, ◌+◌, ◌-◌, ◌%◌, ◌^◌, ◌≤◌, ◌<◌, length, take, drop, List, [], ◌∷◌, ◌++◌, ◌≡◌, refl, ap, ◌∙◌, sym,
  arith, subst, Bytes, if◌then◌else◌, false, ltb, ◌||◌, ◌&&◌, ◌==◌, nat_Eq, length-append,
}
use native.Mathlib.Nat.{mod-add-mod, mod-lt}
use fastenv.HostEbpf.Elf.{from_le}
use fastenv.HostEbpf.Elf.Numbers.{to_le, length-to_le, from_le-to_le}
use fastenv.HostEbpf.Ring.{
  PolicyDecisionEvent, decode_policy_event, copy_payload, Cursor, continues, round, read_record,
  add_u64, log_record, perf_record_sample,
}
use fastenv.HostEbpf.Ring.Slices.{Holds, Holds-left, Holds-right, slice-Holds, mod_add_lt}
use fastenv.HostEbpf.Ring.Copying.{copy_payload-Holds}

-- A record as the kernel writes it: the type, flags, the size of the whole, and the body.
pub record PerfRecord : Type 0 where
  pub kind : ℕ
  pub misc : ℕ
  pub body : Bytes

abbrev pub size_of : PerfRecord → ℕ
size_of r = 8 + length r.body

abbrev pub encode : PerfRecord → Bytes
encode r = to_le 4 r.kind ++ (to_le 2 r.misc ++ (to_le 2 (size_of r) ++ r.body))

unfoldable pub encode_all : List PerfRecord → Bytes
encode_all [] = []
encode_all (r ∷ rs) = encode r ++ encode_all rs

-- The records that the kernel writes: aligned to 8 bytes, and no longer than the ring.
pub record Aligned (ring : Bytes) (r : PerfRecord) : Type 0 where
  pub typed : r.kind < 2 ^ 32
  pub sized : size_of r < 2 ^ 16
  pub whole : size_of r % 8 ≡ 0
  pub fits : size_of r ≤ length ring

abbrev pub events_of : PerfRecord → List PolicyDecisionEvent
events_of r =
    if r.kind == perf_record_sample && ltb 8 (size_of r)
    then decode_policy_event r.body ∷ []
    else []

-- The events of the samples with a body, in the order of the records.
unfoldable pub all_events : List PerfRecord → List PolicyDecisionEvent
all_events [] = []
all_events (r ∷ rs) = events_of r ++ all_events rs

pub length-encode : (r : PerfRecord) → length (encode r) ≡ size_of r
length-encode r = omega (
  arith,
  length-append (to_le 4 r.kind) (to_le 2 r.misc ++ (to_le 2 (size_of r) ++ r.body)),
  length-append (to_le 2 r.misc) (to_le 2 (size_of r) ++ r.body),
  length-append (to_le 2 (size_of r)) r.body,
  length-to_le 4 r.kind,
  length-to_le 2 r.misc,
  length-to_le 2 (size_of r),
)

module _ (ring : Bytes) where
  -- A number that lies in the ring before its end.
  from_le-Holds :
      (pos n x : ℕ)
      → Holds ring pos (to_le n x)
      → pos % length ring + n ≤ length ring
      → from_le (take n (drop (pos % length ring) ring)) ≡ from_le (to_le n x)
  from_le-Holds pos n x h fits = ap from_le (
      ap (λ k. take k (drop (pos % length ring) ring)) (sym (length-to_le n x))
      ∙ slice-Holds ring pos (to_le n x) h (omega (arith, length-to_le n x)))

  after_number :
      (pos n x : ℕ) (ys : Bytes)
      → Holds ring pos (to_le n x ++ ys)
      → (next : ℕ) → pos + n ≡ next
      → Holds ring next ys
  after_number pos n x ys h next e =
      subst (λ p. Holds ring p ys) (ap (λ k. pos + k) (length-to_le n x) ∙ e)
        (Holds-right ring pos (to_le n x) ys h)

  module _ (r : PerfRecord) (ok : Aligned ring r) (c : Cursor)
      (h : Holds ring c.read_head (encode r))
      (room : c.read_head % length ring + 8 ≤ length ring) where
    abbrev pos : ℕ
    pos = c.read_head

    abbrev offset : ℕ
    offset = pos % length ring

    -- What is left of the record after its type, its flags and its size.
    after_kind : Holds ring (pos + 4) (to_le 2 r.misc ++ (to_le 2 (size_of r) ++ r.body))
    after_kind = after_number pos 4 r.kind _ h (pos + 4) refl

    after_misc : Holds ring (pos + 6) (to_le 2 (size_of r) ++ r.body)
    after_misc = after_number (pos + 4) 2 r.misc _ after_kind (pos + 6) (omega arith)

    after_size : Holds ring (pos + 8) r.body
    after_size = after_number (pos + 6) 2 (size_of r) _ after_misc (pos + 8) (omega arith)

    record_type : from_le (take 4 (drop offset ring)) ≡ r.kind
    record_type =
        from_le-Holds pos 4 r.kind (Holds-left ring pos (to_le 4 r.kind) _ h) (omega arith)
        ∙ from_le-to_le 4 r.kind ok.typed

    record_size : from_le (take 2 (drop (offset + 6) ring)) ≡ size_of r
    record_size =
        ap (λ k. from_le (take 2 (drop k ring))) (sym inside)
        ∙ (from_le-Holds (pos + 6) 2 (size_of r)
              (Holds-left ring (pos + 6) (to_le 2 (size_of r)) r.body after_misc)
              (omega (arith, inside))
            ∙ from_le-to_le 2 (size_of r) ok.sized)
      where
        inside : (pos + 6) % length ring ≡ offset + 6
        inside = mod_add_lt pos 6 (length ring) (omega arith)

    payload : copy_payload ring ((offset + 8) % length ring) (size_of r - 8) ≡ r.body
    payload = cc (
      mod-add-mod pos (length ring) 8,
      body_len,
      copy_payload-Holds ring (pos + 8) r.body after_size
          (mod-lt (pos + 8) (omega (arith, ok.fits))) (omega (arith, ok.fits)),
    )
      where
        body_len : size_of r - 8 ≡ length r.body
        body_len = omega arith

    log_record-encode : log_record ring offset r.kind (size_of r) ≡ events_of r
    unfolding log_record
    log_record-encode = rw payload refl

    read_record-encode :
        pos + size_of r < 2 ^ 64
        → read_record ring offset c
          ≡ continues (record { read_head = pos + size_of r; events = c.events ++ events_of r })
    unfolding read_record
    read_record-encode small = rw (record_type, record_size, sized, log_record-encode, sum) refl
      where
        sized : (size_of r == 0 || ltb (length ring) (size_of r)) ≡ false
        sized = ground (arith, ok.fits)

        sum : add_u64 pos (size_of r) ≡ pos + size_of r
        sum = omega arith

    pub round-encode :
        (data_head : ℕ)
        → pos + size_of r ≤ data_head
        → data_head < 2 ^ 64
        → round ring data_head c
          ≡ continues (record { read_head = pos + size_of r; events = c.events ++ events_of r })
    unfolding round
    round-encode data_head le small = rw (enough, inside) (read_record-encode (omega arith))
      where
        enough : ltb (data_head - pos) 8 ≡ false
        enough = ground arith

        inside : ltb (length ring) (offset + 8) ≡ false
        inside = ground arith
