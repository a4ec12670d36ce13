-- ===== src/Guest/Gc/Eviction.antt =====
-- The eviction list of src/gc.rs, against the sorted list of forks.
use Prim.Native.Nat.{max}
use fastenv.Base.{
  ℕ, ◌+◌, ◌-◌, ◌≤◌, Text, Bool, false, List, [], ◌∷◌, ◌++◌, filter, length, length-take, take,
  contains, ltb, if◌then◌else◌, nat_Eq, list_Eq, ◌||◌, Option, none, some, ◌≡◌, refl, ap, ◌∙◌,
  arith, Bool-cases, inl, inr,
}
use fastenv.Guest.Gc.{
  GcOptions, Timed, sort_timed, keys, is_expired, or_zero, evict_expired, evict_excess,
  eviction_list,
}
use fastenv.Guest.Gc.Order.{
  IsOldestFirst, IsUnique, sort_timed-IsOldestFirst, sort-IsUnique, length-sort, expired-take,
  contains-takes, filter-take,
}

-- How many forks each policy gives up.
abbrev pub expired_count : (ℕ → Option ℕ) → ℕ → Option ℕ → List Timed → ℕ
expired_count from_std now none forks = 0
expired_count from_std now (some max_age) forks =
    length (filter (is_expired now (or_zero (from_std max_age))) forks)

abbrev pub excess_count : Option ℕ → List Timed → ℕ
excess_count none forks = 0
excess_count (some max_forks) forks = length forks - max_forks

contains-append :
    (ks bs : List Text) (k : Text) → contains (ks ++ bs) k ≡ (contains ks k || contains bs k)
contains-append [] bs k = refl
contains-append (x ∷ ks) bs k = ground (arith, contains-append ks bs k)

filter-ext :
    (p q : Timed → Bool) (xs : List Timed) → ((x : Timed) → p x ≡ q x) → filter p xs ≡ filter q xs
filter-ext p q [] h = refl
filter-ext p q (x ∷ xs) h = rw (h x) (ap (λ r. if q x then x ∷ r else r) (filter-ext p q xs h))

length-keys : (xs : List Timed) → length (keys xs) ≡ length xs
length-keys [] = refl
length-keys (x ∷ xs) = omega (arith, length-keys xs)

none_left : (m n : ℕ) → ltb m n ≡ false → n - m ≡ 0
none_left m n h = ground arith

module _ (from_std : ℕ → Option ℕ) (now : ℕ) where
  evict_expired-take :
      (age : Option ℕ) (xs : List Timed)
      → IsOldestFirst xs
      → evict_expired from_std now age xs ≡ keys (take (expired_count from_std now age xs) xs)
  unfolding evict_expired
  evict_expired-take none xs h = refl
  evict_expired-take (some a) xs h = ap keys (expired-take now (or_zero (from_std a)) xs h)

  evict_excess-take :
      (most : Option ℕ) (xs : List Timed)
      → evict_excess most xs ≡ keys (take (excess_count most xs) xs)
  unfolding evict_excess
  evict_excess-take none xs = refl
  evict_excess-take (some m) xs = elim (Bool-cases (ltb m (length xs))) [
    | inl more ↦ rw more refl
    | inr fits ↦ rw (fits, none_left m (length xs) fits) refl
  ]

  eviction_list-sorted :
      (opts : GcOptions) (xs : List Timed)
      → IsOldestFirst xs
      → IsUnique (keys xs)
      → eviction_list from_std now opts xs
        ≡ keys (
            take
              (max (expired_count from_std now opts.max_age xs) (excess_count opts.max_forks xs))
              xs)
  unfolding eviction_list
  eviction_list-sorted opts xs sorted unique = ap keys (
      filter-ext _ _ xs (λ e.
        ap (λ ks. contains ks e.0)
          (ap (◌++◌ (evict_expired from_std now opts.max_age xs))
              (evict_excess-take opts.max_forks xs)
            ∙ ap (λ ks. ks ++ keys (take (excess_count opts.max_forks xs) xs))
                (evict_expired-take opts.max_age xs sorted))
        ∙ contains-append _ _ e.0
        ∙ contains-takes _ _ xs e.0)
      ∙ filter-take _ xs unique)

  -- For forks with different keys: the sorted list is oldest first, and the eviction list is an
  -- initial part of it, as long as the number of expired forks or the excess over the limit,
  -- whichever is more.
  pub eviction_list-oldest :
      (opts : GcOptions) (forks : List Timed)
      → IsUnique (keys forks)
      → IsOldestFirst (sort_timed forks)
        × (eviction_list from_std now opts (sort_timed forks)
            ≡ keys (
                take
                  (max
                    (expired_count from_std now opts.max_age (sort_timed forks))
                    (excess_count opts.max_forks (sort_timed forks)))
                  (sort_timed forks)))
  eviction_list-oldest opts forks unique = (
    sort_timed-IsOldestFirst forks,
    eviction_list-sorted opts (sort_timed forks) (sort_timed-IsOldestFirst forks)
        (sort-IsUnique forks unique),
  )

  -- For forks with different keys and a limit on their number: the forks that are not evicted are
  -- no more than the limit.
  pub eviction_list-bound :
      (opts : GcOptions) (forks : List Timed) (limit : ℕ)
      → IsUnique (keys forks)
      → opts.max_forks ≡ some limit
      → length forks ≤ limit + length (eviction_list from_std now opts (sort_timed forks))
  eviction_list-bound opts forks limit unique bounded =
      rw ((eviction_list-oldest opts forks unique).1, bounded, length-keys)
        (omega (
          arith,
          length-sort forks,
          length-take
              (max (expired_count from_std now opts.max_age (sort_timed forks))
                (excess_count (some limit) (sort_timed forks)))
              (sort_timed forks),
        ))
