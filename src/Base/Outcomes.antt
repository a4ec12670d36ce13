-- ===== src/Base/Outcomes.antt =====
-- What an action leaves behind: one condition for a result and one for an error, with a rule for
-- each way to build an action.
use mathlib.Core.Path.{◌≡◌, refl, subst, ◌∙◌}
use mathlib.Core.Bool.{Bool, true, false}
use fastenv.Base.Bools.{if◌then◌else◌}
use fastenv.Base.Results.{Result, ok, err, Io, ◌>>=◌, map_err, continue, rewrap}

pub data Outcome {ℓ} {S E A : Type ℓ} (P : A → S → Type ℓ) (Q : E → S → Type ℓ)
    : Result E A × S → Type ℓ where
  returned : {a : A} {s : S} → P a s → Outcome P Q (ok a, s)
  raised : {e : E} {s : S} → Q e s → Outcome P Q (err e, s)

pub ok-injective {ℓ} : {E A : Type ℓ} {a b : A} → ◌≡◌ {A = Result E A} (ok a) (ok b) → a ≡ b
ok-injective h = cc

err-injective {ℓ} : {E A : Type ℓ} {a b : E} → ◌≡◌ {A = Result E A} (err a) (err b) → a ≡ b
err-injective h = cc

module _ {ℓ} {S E A : Type ℓ} {P : A → S → Type ℓ} {Q : E → S → Type ℓ} where
  pub Outcome-ok : {r : Result E A × S} {a : A} → Outcome P Q r → r.0 ≡ ok a → P a r.1
  Outcome-ok (returned {s = s} p) h = subst (λ x. P x s) (ok-injective h) p
  Outcome-ok (raised q) h = cc

  pub Outcome-err : {r : Result E A × S} {e : E} → Outcome P Q r → r.0 ≡ err e → Q e r.1
  Outcome-err (returned p) h = cc
  Outcome-err (raised {s = s} q) h = subst (λ x. Q x s) (err-injective h) q

  -- From the two directions of use, at each result.
  pub Outcome-intro :
      (r : Result E A × S)
      → ((a : A) → r.0 ≡ ok a → P a r.1)
      → ((e : E) → r.0 ≡ err e → Q e r.1)
      → Outcome P Q r
  Outcome-intro (ok a, s) p q = returned (p a refl)
  Outcome-intro (err e, s) p q = raised (q e refl)

  pub Outcome-weaken :
      {P' : A → S → Type ℓ} {Q' : E → S → Type ℓ} {r : Result E A × S}
      → Outcome P Q r
      → ((a : A) (s : S) → P a s → P' a s)
      → ((e : E) (s : S) → Q e s → Q' e s)
      → Outcome P' Q' r
  Outcome-weaken (returned {a = a} {s = s} p) f g = returned (f a s p)
  Outcome-weaken (raised {e = e} {s = s} q) f g = raised (g e s q)

  pub Outcome-if :
      (b : Bool) {r s : Result E A × S}
      → (b ≡ true → Outcome P Q r)
      → (b ≡ false → Outcome P Q s)
      → Outcome P Q (if b then r else s)
  Outcome-if true f g = f refl
  Outcome-if false f g = g refl

module _ {ℓ} {S E A : Type ℓ} {P : A → S → Type ℓ} {Q : E → S → Type ℓ} {X : S → Type ℓ} where
  -- What is known of the state in any case.
  pub Outcome-note : {r : Result E A × S} → Outcome P Q r → X r.1 → Outcome (λ a s. P a s × X s) Q r
  Outcome-note (returned p) x = returned (p, x)
  Outcome-note (raised q) x = raised q

module _ {ℓ} {S E A : Type ℓ} {P P' : A → S → Type ℓ} {Q Q' : E → S → Type ℓ} where
  -- Two conditions of one result.
  pub Outcome-both :
      (r : Result E A × S)
      → Outcome P Q r
      → Outcome P' Q' r
      → Outcome (λ a s. P a s × P' a s) (λ e s. Q e s × Q' e s) r
  Outcome-both r o o' =
      Outcome-intro r (λ a e. (Outcome-ok o e, Outcome-ok o' e))
        (λ e h. (Outcome-err o h, Outcome-err o' h))

module _ {ℓ} {S E A B : Type ℓ} {P : A → S → Type ℓ} {Q : E → S → Type ℓ}
    {P' : B → S → Type ℓ} where
  continue-Outcome :
      (f : A → Io S E B) {r : Result E A × S}
      → Outcome P Q r
      → ((a : A) (s : S) → P a s → Outcome P' Q (f a s))
      → Outcome P' Q (continue f r.1 r.0)
  continue-Outcome f (returned {a = a} {s = s} p) rest = rest a s p
  continue-Outcome f (raised q) rest = raised q

  pub Outcome-bind :
      (m : Io S E A) (f : A → Io S E B) (s : S)
      → Outcome P Q (m s)
      → ((a : A) (s' : S) → P a s' → Outcome P' Q (f a s'))
      → Outcome P' Q ((m >>= f) s)
  unfolding ◌>>=◌
  Outcome-bind m f s o rest = continue-Outcome f o rest

module _ {ℓ} {S E F A : Type ℓ} {P : A → S → Type ℓ} {Q : E → S → Type ℓ}
    {Q' : F → S → Type ℓ} where
  rewrap-Outcome :
      (f : E → F) {r : Result E A × S}
      → Outcome P Q r
      → ((e : E) (s : S) → Q e s → Q' (f e) s)
      → Outcome P Q' (rewrap f r.0, r.1)
  rewrap-Outcome f (returned p) g = returned p
  rewrap-Outcome f (raised {e = e} {s = s} q) g = raised (g e s q)

  pub Outcome-map_err :
      (f : E → F) (m : Io S E A) (s : S)
      → Outcome P Q (m s)
      → ((e : E) (s' : S) → Q e s' → Q' (f e) s')
      → Outcome P Q' (map_err f m s)
  unfolding map_err
  Outcome-map_err f m s o g = rewrap-Outcome f o g

-- An action leaves a part of the state as it is, whether it succeeds or fails.
abbrev pub Keeps {ℓ} : {S E A B : Type ℓ} → (S → B) → Io S E A → Type ℓ
Keeps g m = (s : _) → g (m s).1 ≡ g s

module _ {ℓ} {S E A B C : Type ℓ} (g : S → C) where
  continue-Keeps :
      (f : A → Io S E B)
      → ((a : A) → Keeps g (f a))
      → (r : Result E A) (s : S) → g (continue f s r).1 ≡ g s
  continue-Keeps f k (ok a) s = k a s
  continue-Keeps f k (err e) s = refl

  pub Keeps-bind :
      (m : Io S E A) (f : A → Io S E B) → Keeps g m → ((a : A) → Keeps g (f a)) → Keeps g (m >>= f)
  unfolding ◌>>=◌
  Keeps-bind m f h k s = continue-Keeps f k (m s).0 (m s).1 ∙ h s

module _ {ℓ} {S E F A C : Type ℓ} (g : S → C) where
  pub Keeps-map_err : (f : E → F) (m : Io S E A) → Keeps g m → Keeps g (map_err f m)
  unfolding map_err
  Keeps-map_err f m h s = h s
