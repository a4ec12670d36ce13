-- ===== src/HostEbpf/Ring/Draining.antt =====
-- The loop over the records returns the events of the records that the kernel has written.
use fastenv.Base.{
  ℕ, zero, suc, ◌+◌, ◌-◌, ◌%◌, ◌^◌, ◌≤◌, ◌<◌, length, List, [], ◌∷◌, ◌++◌, ◌≡◌, refl, ap, ◌∙◌, sym,
  arith, subst, Bytes, true, false, ltb, nat_Eq, All, length-append,
}
use mathlib.Core.List.{append_assoc, append-nil}
use native.Mathlib.Nat.{mod-lt, mod-mod_of_dvd, dvd_of_mod-eq-zero}
use fastenv.HostEbpf.Ring.{Cursor, finished, consume, drain}
use fastenv.HostEbpf.Ring.Slices.{Holds, Holds-left, Holds-right}
use fastenv.HostEbpf.Ring.Records.{
  PerfRecord, size_of, encode, encode_all, Aligned, events_of, all_events, length-encode,
  round-encode,
}

at_end :
    (c : Cursor) (data_head : ℕ)
    → c.read_head ≡ data_head
    → finished c ≡ finished (record { read_head = data_head; events = c.events ++ [] })
at_end c data_head e =
    ap (λ k. finished (record { read_head = k; events = c.events })) e
    ∙ ap (λ es. finished (record { read_head = data_head; events = es }))
        (sym (append-nil c.events))

module _ (ring : Bytes) (ring_whole : length ring % 8 ≡ 0) (ring_nonempty : 0 < length ring) where
  -- An aligned header does not lie across the end of the ring.
  header-inside : (pos : ℕ) → pos % 8 ≡ 0 → pos % length ring + 8 ≤ length ring
  header-inside pos h =
      omega
        (arith, mod-mod_of_dvd 8 pos (dvd_of_mod-eq-zero 8 ring_whole), mod-lt pos ring_nonempty)

  consume-encode_all :
      (n data_head : ℕ) (c : Cursor) (rs : List PerfRecord)
      → c.read_head % 8 ≡ 0
      → All (Aligned ring) rs
      → Holds ring c.read_head (encode_all rs)
      → data_head ≡ c.read_head + length (encode_all rs)
      → data_head < 2 ^ 64
      → length (encode_all rs) ≤ n
      → consume n ring data_head c
        ≡ finished (record { read_head = data_head; events = c.events ++ all_events rs })
  unfolding consume encode_all all_events
  consume-encode_all zero data_head c [] al oks h e small le =
      rw caught_up (at_end c data_head (omega arith))
    where
      caught_up : ltb c.read_head data_head ≡ false
      caught_up = ground arith
  consume-encode_all (suc n) data_head c [] al oks h e small le =
      rw caught_up (at_end c data_head (omega arith))
    where
      caught_up : ltb c.read_head data_head ≡ false
      caught_up = ground arith
  consume-encode_all zero data_head c (r ∷ rs) al oks h e small le =
      absurd (omega (arith, length-append (encode r) (encode_all rs), length-encode r))
  consume-encode_all (suc n) data_head c (r ∷ rs) al oks h e small le =
      rw (behind, round-encode ring r oks.0 c here room data_head (omega (arith, total)) small)
        (consume-encode_all n data_head after rs (omega (arith, oks.0.whole)) oks.1 rest
            (omega (arith, total)) small (omega (arith, total))
          ∙ ap (λ es. finished (record { read_head = data_head; events = es }))
              (append_assoc c.events (events_of r) (all_events rs)))
    where
      after : Cursor
      after = record { read_head = c.read_head + size_of r; events = c.events ++ events_of r }

      total : length (encode r ++ encode_all rs) ≡ size_of r + length (encode_all rs)
      total = omega (arith, length-append (encode r) (encode_all rs), length-encode r)

      behind : ltb c.read_head data_head ≡ true
      behind = ground (arith, total)

      room : c.read_head % length ring + 8 ≤ length ring
      room = header-inside c.read_head al

      here : Holds ring c.read_head (encode r)
      here = Holds-left ring c.read_head (encode r) (encode_all rs) h

      rest : Holds ring (c.read_head + size_of r) (encode_all rs)
      rest =
          subst (λ k. Holds ring (c.read_head + k) (encode_all rs)) (length-encode r)
            (Holds-right ring c.read_head (encode r) (encode_all rs) h)

-- For a ring whose length is a positive multiple of 8 and a head that is one too, if the kernel has
-- written records into it from that head on, around its end where it wraps, each aligned to 8 bytes
-- and no longer than the ring, and the heads stay below 2^64: the pass over the ring ends at the
-- kernel's head, and has logged the events of exactly the samples with a body, in the order of the
-- records.
pub drain-encode_all :
    (ring : Bytes) (c : Cursor) (rs : List PerfRecord)
    → length ring % 8 ≡ 0
    → 0 < length ring
    → c.read_head % 8 ≡ 0
    → All (Aligned ring) rs
    → Holds ring c.read_head (encode_all rs)
    → c.read_head + length (encode_all rs) < 2 ^ 64
    → drain ring (c.read_head + length (encode_all rs)) c
      ≡ finished (record {
        read_head = c.read_head + length (encode_all rs);
        events = c.events ++ all_events rs;
      })
unfolding drain
drain-encode_all ring c rs whole nonempty al oks h small =
    consume-encode_all ring whole nonempty (c.read_head + length (encode_all rs) - c.read_head)
      (c.read_head + length (encode_all rs)) c rs al oks h refl small (omega arith)
