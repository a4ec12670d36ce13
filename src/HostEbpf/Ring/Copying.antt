-- ===== src/HostEbpf/Ring/Copying.antt =====
-- What `copy_payload` copies.
use fastenv.Base.{
  ℕ, ◌+◌, ◌-◌, ◌%◌, ◌≤◌, ◌<◌, length, take, drop, ◌++◌, ◌≡◌, ap, ◌∙◌, sym, arith, subst, Bytes,
  length-take, length-drop, Bool-cases, leb, inl, inr,
}
use native.Mathlib.Nat.{mod-add-mod, mod_self}
use fastenv.HostEbpf.Ring.{copy_payload}
use fastenv.HostEbpf.Ring.Slices.{Holds, Holds-left, Holds-right, slice-Holds, take-append-drop}

-- The first byte after the end of the ring is the ring's start.
start_again : (pos n : ℕ) → pos % n < n → (pos + (n - pos % n)) % n ≡ 0
start_again pos n lt = sym (mod-add-mod pos n (n - pos % n)) ∙ (ap (λ k. k % n) whole ∙ mod_self n)
  where
    whole : pos % n + (n - pos % n) ≡ n
    whole = omega arith

module _ (ring : Bytes) (pos : ℕ) (payload : Bytes) (h : Holds ring pos payload)
    (lt : pos % length ring < length ring) (le : length payload ≤ length ring) where
  abbrev first_len : ℕ
  first_len = length ring - pos % length ring

  copy_wrapped :
      length ring < pos % length ring + length payload
      → take first_len (drop (pos % length ring) ring) ++ take (length payload - first_len) ring
        ≡ payload
  copy_wrapped over = cc (front, back, start, length-xs, length-ys, halves)
    where
      xs : Bytes
      xs = take first_len payload

      ys : Bytes
      ys = drop first_len payload

      length-xs : length xs ≡ first_len
      length-xs = omega (arith, length-take first_len payload)

      length-ys : length ys ≡ length payload - first_len
      length-ys = length-drop first_len payload

      both : Holds ring pos (xs ++ ys)
      both = subst (Holds ring pos) (sym (take-append-drop first_len payload)) h

      start : (pos + length xs) % length ring ≡ 0
      start = ap (λ k. (pos + k) % length ring) length-xs ∙ start_again pos (length ring) lt

      front : take (length xs) (drop (pos % length ring) ring) ≡ xs
      front = slice-Holds ring pos xs (Holds-left ring pos xs ys both) (omega (arith, length-xs))

      back : take (length ys) (drop ((pos + length xs) % length ring) ring) ≡ ys
      back =
          slice-Holds ring (pos + length xs) ys (Holds-right ring pos xs ys both)
            (omega (arith, start, length-ys))

      halves : xs ++ ys ≡ payload
      halves = take-append-drop first_len payload

-- The copy of a payload, in one part or in two, is the bytes that lie in the ring from its
-- position on, where the ring's end is followed by its start.
pub copy_payload-Holds :
    (ring : Bytes) (pos : ℕ) (payload : Bytes)
    → Holds ring pos payload
    → pos % length ring < length ring
    → length payload ≤ length ring
    → copy_payload ring (pos % length ring) (length payload) ≡ payload
unfolding copy_payload
copy_payload-Holds ring pos payload h lt le =
    elim (Bool-cases (leb (pos % length ring + length payload) (length ring))) [
      | inl t ↦ rw t (slice-Holds ring pos payload h (ground arith))
      | inr f ↦ rw f (copy_wrapped ring pos payload h lt le (ground arith))
    ]
