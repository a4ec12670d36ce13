-- ===== src/HostEbpf/Ring/Decoding.antt =====
-- What `decode_policy_event` reads of a payload in the layout of the eBPF side.
use fastenv.Base.{
  ℕ, zero, suc, ◌+◌, ◌-◌, ◌≤◌, ◌<◌, length, take, get_elem?, [], ◌∷◌, ◌++◌, ◌≡◌, refl, ap, ◌∙◌, sym,
  arith, Bytes, true, leb, ◌==◌, nat_Eq, All, length-append, Text, text, take-append, if◌then◌else◌,
  some, from_utf8_lossy, from_utf8_lossy-ascii,
}
use fastenv.HostEbpf.Elf.{until_zero}
use fastenv.HostEbpf.Ring.Slices.{get_elem?-append_right}
use fastenv.HostEbpf.Ring.{decode_policy_event, print_u8}

-- A byte of a name: ASCII, and not the zero that ends it.
abbrev pub NameByte : ℕ → Type 0
NameByte b = (0 < b) × (b < 128)

unfoldable pub zeros : ℕ → Bytes
zeros zero = []
zeros (suc n) = 0 ∷ zeros n

abbrev pub encode_event : Text → ℕ → Bytes → Bytes
encode_event name action pad = (name ++ zeros (16 - length name)) ++ action ∷ pad

until_zero-zeros : (name : Text) (n : ℕ) → All NameByte name → until_zero (name ++ zeros n) ≡ name
unfolding until_zero zeros
until_zero-zeros [] zero h = refl
until_zero-zeros [] (suc n) h = refl
until_zero-zeros (c ∷ name) n h = ground (arith, until_zero-zeros name n h.1)

NameByte-ascii : (name : Text) → All NameByte name → All (λ c. c < 128) name
NameByte-ascii [] h = tt
NameByte-ascii (c ∷ name) h = (h.0.1, NameByte-ascii name h.1)

length-zeros : (n : ℕ) → length (zeros n) ≡ n
unfolding zeros
length-zeros zero = refl
length-zeros (suc n) = ap suc (length-zeros n)

-- The word for an action.
unfoldable pub action_name : ℕ → Text
action_name v = if v == 0 then text "allow" else if v == 1 then text "deny" else print_u8 v

-- From a payload in the layout of the eBPF side, a name of at most 16 ASCII bytes other than zero
-- filled up with zeros, a byte for the action, and anything after it, decode_policy_event returns
-- the name, the word for the action and the payload.
pub decode_policy_event-encode_event :
    (name : Text) (action : ℕ) (pad : Bytes)
    → length name ≤ 16
    → All NameByte name
    → decode_policy_event (encode_event name action pad) ≡ record {
      prog_name = name;
      action = action_name action;
      raw_payload = encode_event name action pad;
    }
unfolding decode_policy_event action_name
decode_policy_event-encode_event name action pad le h = cc (long, field, named, acted)
  where
    padded : Bytes
    padded = name ++ zeros (16 - length name)

    length-padded : length padded ≡ 16
    length-padded =
        omega
          (arith, length-append name (zeros (16 - length name)), length-zeros (16 - length name))

    long : leb 16 (length (encode_event name action pad)) ≡ true
    long = ground (arith, length-append padded (action ∷ pad), length-padded)

    field : take 16 (encode_event name action pad) ≡ padded
    field =
        ap (λ n. take n (encode_event name action pad)) (sym length-padded)
        ∙ take-append padded (action ∷ pad)

    named : from_utf8_lossy (until_zero padded) ≡ name
    named =
        ap from_utf8_lossy (until_zero-zeros name (16 - length name) h)
        ∙ from_utf8_lossy-ascii name (NameByte-ascii name h)

    acted : get_elem? (encode_event name action pad) 16 ≡ some action
    acted =
        ap (get_elem? (encode_event name action pad)) position
        ∙ get_elem?-append_right padded (action ∷ pad) 0
      where
        position : 16 ≡ length padded + 0
        position = omega (arith, length-padded)
