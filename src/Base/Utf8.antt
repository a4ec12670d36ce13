-- ===== src/Base/Utf8.antt =====
-- UTF-8: the bytes of a text, and the text of bytes.
use Prim.Native.Nat.{ℕ, ◌+◌, ◌-◌, ◌*◌, ◌/◌, ◌%◌}
use mathlib.Core.Bool.{◌&&◌}
use mathlib.Core.Option.{Option, none, some}
use mathlib.Core.List.{List, [], ◌∷◌, ◌++◌}
use mathlib.Core.Path.{◌≡◌, refl, ap}
use mathlib.Core.Logic.{inl, inr}
use native.Mathlib.Omega.{arith}
use Prim.Native.Nat.{◌<◌}
use fastenv.Base.Lists.{All}
use fastenv.Base.Bools.{Bool-cases, ltb, leb, if◌then◌else◌}
use fastenv.Base.Texts.{Text}

abbrev pub Bytes : Type 0
Bytes = List ℕ

-- The bytes of a character.
unfoldable pub utf8 : ℕ → Bytes
utf8 c =
    if ltb c 0x80
    then c ∷ []
    else if ltb c 0x800
    then (0xc0 + c / 64) ∷ (0x80 + c % 64) ∷ []
    else if ltb c 0x10000
    then (0xe0 + c / 4096) ∷ (0x80 + c / 64 % 64) ∷ (0x80 + c % 64) ∷ []
    else (0xf0 + c / 262144) ∷ (0x80 + c / 4096 % 64) ∷ (0x80 + c / 64 % 64) ∷ (0x80 + c % 64) ∷ []

unfoldable pub bytes : Text → Bytes
bytes [] = []
bytes (c ∷ s) = utf8 c ++ bytes s

-- A character that is begun: the bytes still to come, the range of the next one, and the value so
-- far.
pub record Begun : Type 0 where
  pub more : ℕ
  pub low : ℕ
  pub high : ℕ
  pub value : ℕ

pub data Lead : Type 0 where
  whole : ℕ → Lead
  begins : Begun → Lead
  invalid : Lead

abbrev begin : ℕ → ℕ → ℕ → ℕ → Lead
begin more low high value = begins (record { more = more; low = low; high = high; value = value })

-- What a byte begins. The ranges leave out overlong forms, surrogates and what is above U+10FFFF.
unfoldable lead : ℕ → Lead
lead c =
    if ltb c 0x80
    then whole c
    else if ltb c 0xc2
    then invalid
    else if ltb c 0xe0
    then begin 1 0x80 0xbf (c - 0xc0)
    else if ltb c 0xe1
    then begin 2 0xa0 0xbf 0
    else if ltb c 0xed
    then begin 2 0x80 0xbf (c - 0xe0)
    else if ltb c 0xee
    then begin 2 0x80 0x9f (c - 0xe0)
    else if ltb c 0xf0
    then begin 2 0x80 0xbf (c - 0xe0)
    else if ltb c 0xf1
    then begin 3 0x90 0xbf 0
    else if ltb c 0xf4
    then begin 3 0x80 0xbf (c - 0xf0)
    else if ltb c 0xf5
    then begin 3 0x80 0x8f 4
    else invalid

-- The characters of a text, with `none` for each longest part that is no character.
abbrev Marks : Type 0
Marks = List (Option ℕ)

-- What a byte that stands where a character starts gives, with the decoding of the bytes after it.
unfoldable starting : Lead → (Option Begun → Marks) → Marks
starting (whole c) next = some c ∷ next none
starting (begins b) next = next (some b)
starting invalid next = none ∷ next none

-- A continuation byte.
unfoldable going_on : Begun → ℕ → (Option Begun → Marks) → Marks
going_on b c next =
    if ltb 1 b.more
    then next (
        some (record {
          more = b.more - 1;
          low = 0x80;
          high = 0xbf;
          value = b.value * 64 + (c - 0x80);
        }))
    else some (b.value * 64 + (c - 0x80)) ∷ next none

unfoldable decode : Option Begun → Bytes → Marks
unfolding lead starting going_on
decode none [] = []
decode (some b) [] = none ∷ []
decode none (c ∷ s) = starting (lead c) (λ p. decode p s)
decode (some b) (c ∷ s) =
    if leb b.low c && leb c b.high
    then going_on b c (λ p. decode p s)
    else none ∷ starting (lead c) (λ p. decode p s)

-- `from_utf8_lossy`: what is no character becomes U+FFFD.
unfoldable lossy : Marks → Text
lossy [] = []
lossy (some c ∷ m) = c ∷ lossy m
lossy (none ∷ m) = 0xfffd ∷ lossy m

unfoldable pub from_utf8_lossy : Bytes → Text
unfolding decode lossy
from_utf8_lossy s = lossy (decode none s)

-- `from_utf8`: fails when anything is no character.
unfoldable strict : Marks → Option Text
strict [] = some []
strict (some c ∷ m) = elim (strict m) [ none ↦ none | some t ↦ some (c ∷ t) ]
strict (none ∷ m) = none

unfoldable pub from_utf8 : Bytes → Option Text
unfolding decode strict
from_utf8 s = strict (decode none s)

-- ASCII bytes are the text.
pub from_utf8_lossy-ascii : (s : Bytes) → All (λ c. c < 128) s → from_utf8_lossy s ≡ s
unfolding from_utf8_lossy decode lossy starting lead
from_utf8_lossy-ascii [] h = refl
from_utf8_lossy-ascii (c ∷ s) h = elim (Bool-cases (ltb c 0x80)) [
  | inl t ↦ rw t (ap (λ r. c ∷ r) (from_utf8_lossy-ascii s h.1))
  | inr f ↦ ground arith
]
