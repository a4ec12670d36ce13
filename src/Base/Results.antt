-- ===== src/Base/Results.antt =====
-- Results, and actions that read and change a state and may fail.
use mathlib.Core.Path.{◌≡◌, refl}
use mathlib.Core.Logic.{◌⊎◌, inl, inr}

pub data Result {ℓ} (E A : Type ℓ) : Type ℓ where
  ok : A → Result E A
  err : E → Result E A

-- What was changed before an error stays changed, so the state comes back beside the error too.
abbrev pub Io {ℓ} : Type ℓ → Type ℓ → Type ℓ → Type ℓ
Io S E A = S → Result E A × S

module _ {ℓ} {S E A : Type ℓ} where
  abbrev pub pure : A → Io S E A
  pure a s = (ok a, s)

  abbrev pub fail : E → Io S E A
  fail e s = (err e, s)

  abbrev pub gets : (S → A) → Io S E A
  gets f s = (ok (f s), s)

module _ {ℓ} {S E A B : Type ℓ} where
  abbrev pub continue : (A → Io S E B) → S → Result E A → Result E B × S
  continue f s (ok a) = f a s
  continue f s (err e) = (err e, s)

  infixl 10 ◌>>=◌ ◌>>◌
  unfoldable pub ◌>>=◌ : Io S E A → (A → Io S E B) → Io S E B
  ◌>>=◌ m f s = continue f (m s).1 (m s).0

  abbrev pub ◌>>◌ : Io S E A → Io S E B → Io S E B
  m >> k = m >>= λ _. k

abbrev pub rewrap {ℓ} : {E F A : Type ℓ} → (E → F) → Result E A → Result F A
rewrap f (ok a) = ok a
rewrap f (err e) = err (f e)

-- `.map_err(f)`
unfoldable pub map_err {ℓ} : {S E F A : Type ℓ} → (E → F) → Io S E A → Io S F A
map_err f m s = (rewrap f (m s).0, (m s).1)

pub Result-cases {ℓ} :
    {E A : Type ℓ} (r : Result E A) → ((a : A) × (r ≡ ok a)) ⊎ ((e : E) × (r ≡ err e))
Result-cases (ok a) = inl (a, refl)
Result-cases (err e) = inr (e, refl)
