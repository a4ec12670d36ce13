-- ===== src/HostEbpf/Elf/Numbers.antt =====
-- What the little-endian readers return of a number that is written so.
use fastenv.Base.{
  ℕ, zero, suc, ◌+◌, ◌*◌, ◌/◌, ◌%◌, ◌^◌, ◌<◌, ◌-◌, Bytes, length, take-append, drop-append,
  length-append, [], ◌∷◌, ◌++◌, some, ◌≡◌, refl, ap, ◌∙◌, sym, arith, leb, true, ◌&&◌,
}
use fastenv.HostEbpf.Elf.{
  get, from_le, read_le, le_or_zero, read_u16_le, read_u32_le, read_u64_le, add_usize,
}

-- The bytes of a number, the lowest first.
unfoldable pub to_le : ℕ → ℕ → Bytes
to_le zero x = []
to_le (suc n) x = x % 256 ∷ to_le n (x / 256)

abbrev pub limit : ℕ → ℕ
limit zero = 1
limit (suc n) = 256 * limit n

pub length-to_le : (n x : ℕ) → length (to_le n x) ≡ n
unfolding to_le
length-to_le zero x = refl
length-to_le (suc n) x = ap suc (length-to_le n (x / 256))

pub from_le-to_le : (n x : ℕ) → x < limit n → from_le (to_le n x) ≡ x
unfolding from_le to_le
from_le-to_le zero x h = omega arith
from_le-to_le (suc n) x h = omega (arith, from_le-to_le n (x / 256) (omega arith))

pub get-append :
    (a b c : Bytes)
    → length a + length b < 2 ^ 64
    → get (a ++ (b ++ c)) (length a) (add_usize (length a) (length b)) ≡ some b
unfolding get
get-append a b c h = rw (end, inside, size, drop-append a (b ++ c), take-append b c) refl
  where
    end : add_usize (length a) (length b) ≡ length a + length b
    end = omega arith

    size : length a + length b - length a ≡ length b
    size = omega arith

    inside :
        (leb (length a) (length a + length b) && leb (length a + length b) (length (a ++ (b ++ c))))
        ≡ true
    inside = ground (arith, length-append a (b ++ c), length-append b c)

read_le-append :
    (n x : ℕ) (a c : Bytes)
    → x < limit n
    → length a + n < 2 ^ 64
    → read_le n (a ++ (to_le n x ++ c)) (length a) ≡ x
read_le-append n x a c h k =
    ap (λ m. le_or_zero (get (a ++ (to_le n x ++ c)) (length a) (add_usize (length a) m)))
      (sym (length-to_le n x))
    ∙ (ap le_or_zero (get-append a (to_le n x) c (rw (length-to_le n x) k)) ∙ from_le-to_le n x h)

-- At an offset of a file of any contents, below 2^64 by 8, each of the three little-endian readers
-- returns the number of its width whose bytes, the lowest first, stand there.
pub read_u64_le-to_le :
    (x : ℕ) (a c : Bytes)
    → length a + 8 < 2 ^ 64
    → (x < 2 ^ 16 → read_u16_le (a ++ (to_le 2 x ++ c)) (length a) ≡ x)
      × (x < 2 ^ 32 → read_u32_le (a ++ (to_le 4 x ++ c)) (length a) ≡ x)
      × (x < 2 ^ 64 → read_u64_le (a ++ (to_le 8 x ++ c)) (length a) ≡ x)
unfolding read_u16_le read_u32_le read_u64_le
read_u64_le-to_le x a c h = (
  λ k. read_le-append 2 x a c (omega arith) (omega arith),
  λ k. read_le-append 4 x a c (omega arith) (omega arith),
  λ k. read_le-append 8 x a c (omega arith) (omega arith),
)
