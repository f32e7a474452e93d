-- ===== src/Base/Updates.antt =====
-- What the updates and the filters of a list keep.
use mathlib.Core.Path.{◌≡◌, refl}
use mathlib.Core.Bool.{Bool, true, false}
use mathlib.Core.Option.{some}
use mathlib.Core.List.{List, [], ◌∷◌, ◌++◌}
use native.Mathlib.Omega.{arith}
use mathlib.Core.Logic.{inl, inr}
use getoffline.Base.Tests.{Bool-cases}
use getoffline.Base.Lists.{any, first, keep, update_where, All}

pub both_empty {ℓ} : {A : Type ℓ} (xs ys : List A) → xs ++ ys ≡ [] → (xs ≡ []) × (ys ≡ [])
both_empty [] ys h = (refl, h)
both_empty (x ∷ xs) ys h = cc

module _ {ℓ} {A : Type ℓ} where
  pub any-update_same :
      (p q : A → Bool) (f : A → A) (xs : List A)
      → ((x : A) → p (f x) ≡ p x)
      → any p (update_where q f xs) ≡ any p xs
  any-update_same p q f [] h = refl
  any-update_same p q f (x ∷ xs) h = ground (arith, h x, any-update_same p q f xs h)

  -- the items that a filter leaves pass its test
  pub keep_passes : (p : A → Bool) (xs : List A) → All (λ x. p x ≡ true) (keep p xs)
  keep_passes p [] = tt
  keep_passes p (x ∷ xs) = elim (Bool-cases (p x)) [
    | inl e ↦ rw e (e, keep_passes p xs)
    | inr e ↦ rw e (keep_passes p xs)
  ]

  pub any_of_any-keep : (p q : A → Bool) (xs : List A) → any p (keep q xs) ≡ true → any p xs ≡ true
  any_of_any-keep p q [] h = h
  any_of_any-keep p q (x ∷ xs) h = ground (arith, any_of_any-keep p q xs)

  pub update_of_none :
      (q : A → Bool) (f : A → A) (xs : List A) → any q xs ≡ false → update_where q f xs ≡ xs
  update_of_none q f [] h = refl
  update_of_none q f (x ∷ xs) h = ground (arith, update_of_none q f xs)

  -- the items that pass a test, where an update changes only others
  pub keep-update_apart :
      (p q : A → Bool) (f : A → A) (xs : List A)
      → ((x : A) → q x ≡ true → p x ≡ false)
      → ((x : A) → q x ≡ true → p (f x) ≡ false)
      → keep p (update_where q f xs) ≡ keep p xs
  keep-update_apart p q f [] h h' = refl
  keep-update_apart p q f (x ∷ xs) h h' = ground (arith, h x, h' x, keep-update_apart p q f xs h h')

  pub keep-keep_apart :
      (p q : A → Bool) (xs : List A)
      → ((x : A) → q x ≡ false → p x ≡ false)
      → keep p (keep q xs) ≡ keep p xs
  keep-keep_apart p q [] h = refl
  keep-keep_apart p q (x ∷ xs) h = ground (arith, h x, keep-keep_apart p q xs h)

module _ {ℓ κ} {A : Type ℓ} where
  pub All-update :
      (P : A → Type κ) (q : A → Bool) (f : A → A) (xs : List A)
      → ((x : A) → q x ≡ true → P x → P (f x))
      → All P xs
      → All P (update_where q f xs)
  All-update P q f [] h a = tt
  All-update P q f (x ∷ xs) h a = (
    elim (Bool-cases (q x)) [ inl e ↦ rw e (h x e a.0) | inr e ↦ rw e a.0 ],
    All-update P q f xs h a.1,
  )

  pub All-weaken : (P Q : A → Type κ) → ((x : A) → P x → Q x) → (xs : List A) → All P xs → All Q xs
  All-weaken P Q h [] a = tt
  All-weaken P Q h (x ∷ xs) a = (h x a.0, All-weaken P Q h xs a.1)

-- The row that a search finds, after an update that leaves the search's test alone.
pub first-update :
    {A : Type 0} (p q : A → Bool) (f : A → A) (xs : List A) (x : A)
    → ((y : A) → p (f y) ≡ p y)
    → q x ≡ true
    → first p xs ≡ some x
    → first p (update_where q f xs) ≡ some (f x)
first-update p q f [] x same h e = cc
first-update p q f (y ∷ xs) x same h e = grind (arith, same y, first-update p q f xs x same h)

pub any-first :
    {A : Type 0} (p : A → Bool) (xs : List A) (x : A) → first p xs ≡ some x → any p xs ≡ true
any-first p [] x h = cc
any-first p (y ∷ xs) x h = ground (arith, any-first p xs x)
