-- ===== src/HostEbpf/Ring/Ending.antt =====
-- The loop over the records ends.
use fastenv.Base.{
  ℕ, zero, suc, ◌+◌, ◌-◌, ◌%◌, ◌^◌, ◌≤◌, ◌<◌, length, arith, Bytes, Bool-cases, inl, inr,
  if◌then◌else◌, ltb, ◌||◌, ◌==◌, nat_Eq, take, drop, ◌++◌,
}
use fastenv.HostEbpf.Elf.{from_le}
use fastenv.HostEbpf.Ring.{
  Cursor, Round, continues, stops, outside, Pass, finished, read_outside, out_of_fuel, round,
  read_record, after_round, consume, drain, add_u64, log_record,
}

-- A round that continues is nearer to the end, and no round moves the head back.
abbrev Advances : Cursor → Round → Type 0
Advances c (continues next) = c.read_head < next.read_head
Advances c (stops next) = c.read_head ≤ next.read_head
Advances c outside = Unit

-- A pass that is not cut short, and has not moved the head back.
abbrev pub Ends : Cursor → Pass → Type 0
Ends c (finished last) = c.read_head ≤ last.read_head
Ends c read_outside = Unit
Ends c out_of_fuel = ⊥

Ends-trans : (c d : Cursor) (p : Pass) → c.read_head ≤ d.read_head → Ends d p → Ends c p
Ends-trans c d (finished last) le h = omega arith
Ends-trans c d read_outside le h = tt
Ends-trans c d out_of_fuel le h = h

module _ (ring : Bytes) (data_head : ℕ) (small : data_head + length ring + 8 < 2 ^ 64) where
  read_record-Advances :
      (offset : ℕ) (c : Cursor) → c.read_head < data_head → Advances c (read_record ring offset c)
  unfolding read_record
  read_record-Advances offset c lt = checked (from_le (take 2 (drop (offset + 6) ring)))
    where
      checked :
          (size : ℕ)
          → Advances c (
              if size == 0 || ltb (length ring) size
              then stops (record c { read_head = add_u64 c.read_head 8 })
              else continues (record {
                read_head = add_u64 c.read_head size;
                events =
                    c.events ++ log_record ring offset (from_le (take 4 (drop offset ring))) size;
              }))
      checked size = elim (Bool-cases (size == 0 || ltb (length ring) size)) [
        | inl t ↦ rw t (omega arith)
        | inr f ↦ rw f (ground arith)
      ]

  round-Advances : (c : Cursor) → c.read_head < data_head → Advances c (round ring data_head c)
  unfolding round
  round-Advances c lt = elim (Bool-cases (ltb (data_head - c.read_head) 8)) [
    | inl t ↦ rw t (omega arith)
    | inr f ↦ rw f (elim (Bool-cases (ltb (length ring) (c.read_head % length ring + 8))) [
      | inl t ↦ rw t tt
      | inr g ↦ rw g (read_record-Advances (c.read_head % length ring) c lt)
    ])
  ]

  after_round-Ends :
      (n : ℕ) (c : Cursor) (r : Round) (rest : Cursor → Pass)
      → data_head ≤ c.read_head + suc n
      → ((next : Cursor) → data_head ≤ next.read_head + n → Ends next (rest next))
      → Advances c r
      → Ends c (after_round r rest)
  after_round-Ends n c (continues next) rest le h lt =
      Ends-trans c next (rest next) (omega arith) (h next (omega arith))
  after_round-Ends n c (stops next) rest le h lt = lt
  after_round-Ends n c outside rest le h lt = tt

  -- Fuel for the bytes between the heads is enough.
  consume-Ends :
      (n : ℕ) (c : Cursor) → data_head ≤ c.read_head + n → Ends c (consume n ring data_head c)
  unfolding consume
  consume-Ends zero c le = elim (Bool-cases (ltb c.read_head data_head)) [
    | inl t ↦ ground arith
    | inr f ↦ rw f (omega arith)
  ]
  consume-Ends (suc n) c le = elim (Bool-cases (ltb c.read_head data_head)) [
    | inl t ↦ rw t (
        after_round-Ends n c (round ring data_head c) (λ next. consume n ring data_head next) le
          (consume-Ends n) (round-Advances c (ground arith)))
    | inr f ↦ rw f (omega arith)
  ]

-- Where the kernel's head is below 2^64 by the length of the ring and a header: a pass over the
-- ring, whatever bytes it holds, ends by the condition of its loop, at a record that stops it, or
-- at a header that lies across the ring's end, and the head that it leaves is not before the one
-- that it starts from.
pub drain-Ends :
    (ring : Bytes) (data_head : ℕ) (c : Cursor)
    → data_head + length ring + 8 < 2 ^ 64
    → Ends c (drain ring data_head c)
unfolding drain
drain-Ends ring data_head c small =
    consume-Ends ring data_head small (data_head - c.read_head) c (omega arith)
