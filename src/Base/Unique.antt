-- ===== src/Base/Unique.antt =====
-- Rows of which no two clash: UNIQUE constraints.
use mathlib.Core.Path.{◌≡◌, refl, ◌∙◌}
use mathlib.Core.Bool.{Bool, true, false}
use mathlib.Core.List.{List, [], ◌∷◌, ◌++◌}
use native.Mathlib.Omega.{arith}
use docker_mass_deployment.Base.Tests.{if◌then◌else◌}
use docker_mass_deployment.Base.Lists.{any, filter, update_where, any-filter, any-append}

module _ {A : Type 0} (clash : A → A → Bool) where
  abbrev pub Distinct : List A → Type 0
  Distinct [] = Unit
  Distinct (x ∷ xs) = (any (clash x) xs ≡ false) × Distinct xs

  pub Distinct-filter : (p : A → Bool) (xs : List A) → Distinct xs → Distinct (filter p xs)
  Distinct-filter p [] h = tt
  Distinct-filter p (x ∷ xs) (h, hs) =
      ground (arith, any-filter (clash x) p xs h, Distinct-filter p xs hs)

  pub Distinct-concat :
      ((x y : A) → clash x y ≡ clash y x)
      → (xs : List A) (y : A) → any (clash y) xs ≡ false
      → Distinct xs
      → Distinct (xs ++ y ∷ [])
  Distinct-concat symm [] y h hs = (refl, tt)
  Distinct-concat symm (x ∷ xs) y h (k, ks) = (
    ground (arith, any-append (clash x) xs (y ∷ []), symm x y),
    Distinct-concat symm xs y (ground arith) ks,
  )

  any-update :
      (f : A → A) (p : A → Bool) (x : A)
      → ((z : A) → clash x (f z) ≡ clash x z)
      → (xs : List A) → any (clash x) (update_where p f xs) ≡ any (clash x) xs
  any-update f p x keep [] = refl
  any-update f p x keep (y ∷ ys) = ground (arith, keep y, any-update f p x keep ys)

  any-same :
      (x x' : A)
      → ((z : A) → clash x' z ≡ clash x z)
      → (xs : List A) → any (clash x') xs ≡ any (clash x) xs
  any-same x x' keep [] = refl
  any-same x x' keep (y ∷ ys) = ground (arith, keep y, any-same x x' keep ys)

  -- An update that leaves the keys alone makes no clash.
  pub Distinct-update_where :
      (f : A → A) (p : A → Bool)
      → ((x y : A) → clash x (f y) ≡ clash x y)
      → ((x y : A) → clash (f x) y ≡ clash x y)
      → (xs : List A) → Distinct xs
      → Distinct (update_where p f xs)
  Distinct-update_where f p right left [] h = tt
  Distinct-update_where f p right left (x ∷ xs) (h, hs) =
      (clear (p x), Distinct-update_where f p right left xs hs)
    where
      clear : (b : Bool) → any (clash (if b then f x else x)) (update_where p f xs) ≡ false
      clear true =
          any-same x (f x) (left x) (update_where p f xs) ∙ any-update f p x (right x) xs ∙ h
      clear false = any-update f p x (right x) xs ∙ h
