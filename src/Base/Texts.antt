-- ===== src/Base/Texts.antt =====
-- Text as the list of its code points, with the operations of `str` that the program uses.
use Prim.Native.Nat.{ℕ, ◌+◌, ◌-◌, ◌*◌}
use Prim.Native.Char.{code}
use Prim.Native.String.{String}
use mathlib.Core.Path.{◌≡◌, refl}
use mathlib.Core.Bool.{Bool, false, ◌&&◌, ◌||◌}
use mathlib.Core.Option.{Option, none, some}
use mathlib.Core.List.{List, [], ◌∷◌, ◌++◌}
use native.Mathlib.Omega.{arith}
use fastenv.Base.Bools.{leb, ltb, if◌then◌else◌, ◌==◌, nat_Eq, list_Eq}
use fastenv.Base.Lists.{all, is_prefix}

abbrev pub Text : Type 0
Text = List ℕ

-- A literal.
abbrev pub text : String → Text
text String.[] = []
text (String.◌∷◌ c s) = code c ∷ text s

-- `char::is_whitespace`: the code points of the property White_Space.
unfoldable pub is_whitespace : ℕ → Bool
is_whitespace c =
    (leb 9 c && leb c 13)
    || c == 32
    || c == 133
    || c == 160
    || c == 5760
    || (leb 8192 c && leb c 8202)
    || c == 8232
    || c == 8233
    || c == 8239
    || c == 8287
    || c == 12288

-- `s.trim().is_empty()`
unfoldable pub is_blank : Text → Bool
is_blank s = all is_whitespace s

-- `s.contains(c)` for a character.
unfoldable pub has_char : ℕ → Text → Bool
has_char c [] = false
has_char c (x ∷ s) = x == c || has_char c s

-- `s.contains("..")`
unfoldable pub has_dots : Text → Bool
has_dots [] = false
has_dots (x ∷ s) = is_prefix (46 ∷ 46 ∷ []) (x ∷ s) || has_dots s

-- `s.strip_prefix(p)`
unfoldable pub strip_prefix : Text → Text → Option Text
strip_prefix [] s = some s
strip_prefix (x ∷ p) [] = none
strip_prefix (x ∷ p) (y ∷ s) = if x == y then strip_prefix p s else none

-- `s.split_once(c)`: the text before the first `c`, and the text after it.
unfoldable pub split_once : ℕ → Text → Option (Text × Text)
split_once c [] = none
split_once c (x ∷ s) =
    if x == c
    then some ([], s)
    else elim (split_once c s) [ none ↦ none | some (a, b) ↦ some (x ∷ a, b) ]

-- `s.split(c)`: the pieces between the occurrences of `c`, always at least one.
abbrev pub push_first : ℕ → List Text → List Text
push_first x [] = (x ∷ []) ∷ []
push_first x (piece ∷ rest) = (x ∷ piece) ∷ rest

unfoldable pub split : ℕ → Text → List Text
split c [] = [] ∷ []
split c (x ∷ s) = if x == c then [] ∷ split c s else push_first x (split c s)

-- `s.parse()` into an unsigned number below the limit: an optional `+`, then at least one digit.
unfoldable pub parse_digits : ℕ → ℕ → Text → Option ℕ
parse_digits limit n [] = some n
parse_digits limit n (c ∷ s) =
    let rest = parse_digits limit (n * 10 + (c - 48)) s in
    if leb 48 c && (leb c 57 && ltb (n * 10 + (c - 48)) limit) then rest else none

unfoldable pub parse_unsigned : ℕ → Text → Option ℕ
unfolding parse_digits
parse_unsigned limit [] = none
parse_unsigned limit (c ∷ []) = parse_digits limit 0 (c ∷ [])
parse_unsigned limit (c ∷ d ∷ s) =
    if c == b'+' then parse_digits limit 0 (d ∷ s) else parse_digits limit 0 (c ∷ d ∷ s)

pub strip_prefix-append : (p s : Text) → strip_prefix p (p ++ s) ≡ some s
unfolding strip_prefix
strip_prefix-append [] s = refl
strip_prefix-append (x ∷ p) s = ground (arith, strip_prefix-append p s)

pub split_once-append :
    (c : ℕ) (a b : Text) → has_char c a ≡ false → split_once c (a ++ c ∷ b) ≡ some (a, b)
unfolding split_once has_char
split_once-append c [] b h = ground arith
split_once-append c (x ∷ a) b h = ground (arith, split_once-append c a b)

pub split-no_char : (c : ℕ) (s : Text) → has_char c s ≡ false → split c s ≡ s ∷ []
unfolding split has_char
split-no_char c [] h = refl
split-no_char c (x ∷ s) h = ground (arith, split-no_char c s)
