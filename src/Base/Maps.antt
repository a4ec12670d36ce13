-- ===== src/Base/Maps.antt =====
-- `HashMap<String, V>` as an association list. The list's order stands for the order in which the
-- real map is iterated, which is arbitrary.
use mathlib.Core.Path.{◌≡◌}
use mathlib.Core.Option.{Option, none, some}
use mathlib.Core.List.{List, [], ◌∷◌}
use native.Mathlib.Omega.{arith}
use fastenv.Base.Bools.{if◌then◌else◌, ◌==◌, eq_iff, nat_Eq, list_Eq}
use fastenv.Base.Texts.{Text}

abbrev pub HashMap {ℓ} : Type ℓ → Type ℓ
HashMap V = List (Text × V)

module _ {ℓ} {V : Type ℓ} where
  unfoldable pub lookup : Text → HashMap V → Option V
  lookup k [] = none
  lookup k ((j, v) ∷ m) = if j == k then some v else lookup k m

  unfoldable pub remove : Text → HashMap V → HashMap V
  remove k [] = []
  remove k ((j, v) ∷ m) = if j == k then remove k m else (j, v) ∷ remove k m

  unfoldable pub insert : Text → V → HashMap V → HashMap V
  unfolding remove
  insert k v m = (k, v) ∷ remove k m

  pub lookup-remove :
      (k j : Text) (m : HashMap V) → lookup j (remove k m) ≡ (if k == j then none else lookup j m)
  unfolding lookup remove
  lookup-remove k j [] = ground arith
  lookup-remove k j ((i, v) ∷ m) =
      ground (arith, lookup-remove k j m, eq_iff i k, eq_iff i j, eq_iff k j)

  pub lookup-insert :
      (k j : Text) (v : V) (m : HashMap V)
      → lookup j (insert k v m) ≡ (if k == j then some v else lookup j m)
  unfolding lookup insert
  lookup-insert k j v m = ground (arith, lookup-remove k j m)
