-- ===== src/Tests/Rings.antt =====
-- The theorems on the perf ring buffer, at concrete inputs.
use fastenv.Base.{
  ℕ, zero, suc, ◌+◌, ◌%◌, ◌^◌, ◌<◌, text, Bytes, length, get_elem?, Bool, true, false, ◌&&◌, [],
  ◌∷◌, ◌++◌, Option, none, some, ◌≡◌, refl, ap, ◌==◌, nat_Eq, eq_iff, arith, &&_true, Bool-cases,
  inl, inr, subst, sym,
}
use fastenv.HostEbpf.Elf.Numbers.{to_le}
use fastenv.HostEbpf.Ring.{
  decode_policy_event, Cursor, finished, read_outside, drain, consume, round,
}
use fastenv.HostEbpf.Ring.Slices.{Holds}
use fastenv.HostEbpf.Ring.Records.{PerfRecord, encode_all, Aligned, all_events}
use fastenv.HostEbpf.Ring.Draining.{drain-encode_all}
use fastenv.HostEbpf.Ring.Ending.{Ends, drain-Ends}
use fastenv.HostEbpf.Ring.Decoding.{encode_event, action_name, decode_policy_event-encode_event}

abbrev pad : Bytes
pad = 0 ∷ 0 ∷ 0 ∷ 0 ∷ 0 ∷ 0 ∷ 0 ∷ []

decode_policy_event-encode_event_example :
    decode_policy_event (encode_event (text "p") 1 pad) ≡ record {
      prog_name = text "p";
      action = action_name 1;
      raw_payload = encode_event (text "p") 1 pad;
    }
decode_policy_event-encode_event_example =
    decode_policy_event-encode_event (text "p") 1 pad (omega arith) ((omega arith, omega arith), tt)

-- A sample of 32 bytes that starts 24 bytes before the end of a ring of 64.
abbrev body : Bytes
body = 112 ∷ 0 ∷ 0 ∷ 0 ∷ 0 ∷ 0 ∷ 0 ∷ 0 ∷ 0 ∷ 0 ∷ 0 ∷ 0 ∷ 0 ∷ 0 ∷ 0 ∷ 0 ∷ 1 ∷ pad

abbrev sample : PerfRecord
sample = record { kind = 9; misc = 0; body = body }

abbrev nothing_8 : Bytes
nothing_8 = 7 ∷ 7 ∷ 7 ∷ 7 ∷ 7 ∷ 7 ∷ 7 ∷ 7 ∷ []

abbrev full_ring : Bytes
full_ring =
    (1 ∷ pad)
    ++ nothing_8
    ++ nothing_8
    ++ nothing_8
    ++ nothing_8
    ++ (9 ∷ 0 ∷ 0 ∷ 0 ∷ 0 ∷ 0 ∷ 32 ∷ 0 ∷ [])
    ++ (112 ∷ 0 ∷ 0 ∷ 0 ∷ 0 ∷ 0 ∷ 0 ∷ 0 ∷ [])
    ++ (0 ∷ 0 ∷ 0 ∷ 0 ∷ 0 ∷ 0 ∷ 0 ∷ 0 ∷ [])

abbrev cursor : Cursor
cursor = record { read_head = 104; events = [] }

abbrev same_byte : Option ℕ → Option ℕ → Bool
same_byte none none = true
same_byte none (some b) = false
same_byte (some a) none = false
same_byte (some a) (some b) = a == b

same_byte_sound : (a b : Option ℕ) → same_byte a b ≡ true → a ≡ b
same_byte_sound none none h = refl
same_byte_sound none (some b) h = cc
same_byte_sound (some a) none h = cc
same_byte_sound (some a) (some b) h = ap some ((eq_iff a b).0 h)

holds_below : Bytes → ℕ → Bytes → ℕ → Bool
holds_below ring pos bytes zero = true
holds_below ring pos bytes (suc n) =
    same_byte (get_elem? ring ((pos + n) % length ring)) (get_elem? bytes n)
    && holds_below ring pos bytes n

holds_below_sound :
    (ring : Bytes) (pos : ℕ) (bytes : Bytes) (n : ℕ)
    → holds_below ring pos bytes n ≡ true
    → (i : ℕ) → i < n
    → get_elem? ring ((pos + i) % length ring) ≡ get_elem? bytes i
unfolding holds_below
holds_below_sound ring pos bytes zero h i lt = absurd (omega arith)
holds_below_sound ring pos bytes (suc n) h i lt = elim (Bool-cases (i == n)) [
  | inl t ↦
      subst (λ k. get_elem? ring ((pos + k) % length ring) ≡ get_elem? bytes k)
        (sym ((eq_iff i n).0 t)) (same_byte_sound _ _ (&&_true _ _ h).0)
  | inr f ↦ holds_below_sound ring pos bytes n (&&_true _ _ h).1 i (ground arith)
]

sample_held : Holds full_ring 104 (encode_all (sample ∷ []))
unfolding holds_below encode_all to_le
sample_held = holds_below_sound full_ring 104 (encode_all (sample ∷ [])) 32 refl

sample-Aligned : Aligned full_ring sample
sample-Aligned = record {
  typed = omega arith;
  sized = omega arith;
  whole = refl;
  fits = omega arith;
}

sample_fits : 104 + length (encode_all (sample ∷ [])) < 2 ^ 64
unfolding encode_all to_le
sample_fits = omega arith

drain-encode_all_example :
    drain full_ring (104 + length (encode_all (sample ∷ []))) cursor
    ≡ finished (record {
      read_head = 104 + length (encode_all (sample ∷ []));
      events = [] ++ all_events (sample ∷ []);
    })
drain-encode_all_example =
    drain-encode_all full_ring cursor (sample ∷ []) refl (omega arith) refl (sample-Aligned, tt)
      sample_held sample_fits

drain-Ends_example : Ends cursor (drain full_ring 136 cursor)
drain-Ends_example = drain-Ends full_ring 136 cursor (omega arith)

-- A ring that does not hold whole words, read where a header lies across its end.
header_across : drain nothing_8 14 (record { read_head = 6; events = [] }) ≡ read_outside
unfolding drain consume round
header_across = refl
