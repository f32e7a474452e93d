-- ===== src/Base/Lists.antt =====
-- Lists measured by native numbers, Boolean tests over a list, and predicates that hold of all items.
use Prim.Native.Nat.{ℕ, zero, suc, ◌+◌, ◌≤◌}
use mathlib.Core.Path.{◌≡◌, refl}
use mathlib.Core.Bool.{Bool, true, false, ◌&&◌, ◌||◌}
use mathlib.Core.Option.{Option, none, some}
use mathlib.Core.List.{List, [], ◌∷◌, ◌++◌, map}
use native.Mathlib.Omega.{arith}
use getoffline.Base.Tests.{if◌then◌else◌}

module _ {ℓ} {A : Type ℓ} where
  abbrev pub length : List A → ℕ
  length [] = 0
  length (x ∷ xs) = suc (length xs)

  abbrev pub take : ℕ → List A → List A
  take zero xs = []
  take (suc n) [] = []
  take (suc n) (x ∷ xs) = x ∷ take n xs

  abbrev pub drop : ℕ → List A → List A
  drop zero xs = xs
  drop (suc n) [] = []
  drop (suc n) (x ∷ xs) = drop n xs

  abbrev pub any : (A → Bool) → List A → Bool
  any p [] = false
  any p (x ∷ xs) = p x || any p xs

  abbrev pub all : (A → Bool) → List A → Bool
  all p [] = true
  all p (x ∷ xs) = p x && all p xs

  -- how many items pass the test
  abbrev pub count : (A → Bool) → List A → ℕ
  count p [] = 0
  count p (x ∷ xs) = if p x then suc (count p xs) else count p xs

  -- the items that pass the test, in their order
  abbrev pub keep : (A → Bool) → List A → List A
  keep p [] = []
  keep p (x ∷ xs) = let rest = keep p xs in if p x then x ∷ rest else rest

  -- the first item that passes the test
  abbrev pub first : (A → Bool) → List A → Option A
  first p [] = none
  first p (x ∷ xs) = if p x then some x else first p xs

  -- `f x` for each item that passes the test, the others as they are
  abbrev pub update_where : (A → Bool) → (A → A) → List A → List A
  update_where p f [] = []
  update_where p f (x ∷ xs) = (if p x then f x else x) ∷ update_where p f xs

  -- `sorted` by an order, which keeps items that are equal in it in their order
  unfoldable pub insert_by : (A → A → Bool) → A → List A → List A
  insert_by le a [] = a ∷ []
  insert_by le a (b ∷ xs) = if le a b then a ∷ b ∷ xs else b ∷ insert_by le a xs

  unfoldable pub sort_by : (A → A → Bool) → List A → List A
  unfolding insert_by
  sort_by le [] = []
  sort_by le (a ∷ xs) = insert_by le a (sort_by le xs)

  pub length-append : (xs ys : List A) → length (xs ++ ys) ≡ length xs + length ys
  length-append [] ys = omega arith
  length-append (x ∷ xs) ys = omega (arith, length-append xs ys)

  pub count-append : (p : A → Bool) (xs ys : List A) → count p (xs ++ ys) ≡ count p xs + count p ys
  count-append p [] ys = omega arith
  count-append p (x ∷ xs) ys = ground (arith, count-append p xs ys)

  -- Dropping items drops none that were not there.
  pub count-keep-le : (p q : A → Bool) (xs : List A) → count p (keep q xs) ≤ count p xs
  count-keep-le p q [] = omega arith
  count-keep-le p q (x ∷ xs) = ground (arith, count-keep-le p q xs)

module _ {ℓ} {A : Type ℓ} (p q : A → Bool) (f : A → A) where
  -- An update that makes no item pass the test makes no count grow.
  pub count-update-le :
      ((x : A) → q x ≡ true → p (f x) ≡ false)
      → (xs : List A) → count p (update_where q f xs) ≤ count p xs
  count-update-le h [] = omega arith
  count-update-le h (x ∷ xs) = ground (arith, h x, count-update-le h xs)

  -- An update that leaves nothing that passes the test.
  pub count-update_none :
      ((x : A) → q x ≡ true → p (f x) ≡ false)
      → ((x : A) → q x ≡ false → p x ≡ false)
      → (xs : List A) → count p (update_where q f xs) ≡ 0
  count-update_none h k [] = refl
  count-update_none h k (x ∷ xs) = ground (arith, h x, k x, count-update_none h k xs)

module _ {ℓ} {A : Type ℓ} (p : A → Bool) where
  pub first_passes : (xs : List A) (x : A) → first p xs ≡ some x → p x ≡ true
  first_passes [] x h = cc
  first_passes (y ∷ xs) x h = ground (arith, first_passes xs x)

  pub count_of_first : (xs : List A) (x : A) → first p xs ≡ some x → 1 ≤ count p xs
  count_of_first [] x h = cc
  count_of_first (y ∷ xs) x h = ground (arith, count_of_first xs x)

  pub first-append :
      (xs : List A) (y : A) → first p xs ≡ none → p y ≡ true → first p (xs ++ y ∷ []) ≡ some y
  first-append [] y h k = ground arith
  first-append (x ∷ xs) y h k = ground (arith, first-append xs y)

  pub count_of_no_first : (xs : List A) → first p xs ≡ none → count p xs ≡ 0
  count_of_no_first [] h = refl
  count_of_no_first (y ∷ xs) h = ground (arith, count_of_no_first xs)

-- A predicate by recursion, which computes to tuples.
abbrev pub All {ℓ κ} : {A : Type ℓ} → (A → Type κ) → List A → Type κ
All P [] = Unit
All P (x ∷ xs) = P x × All P xs

module _ {ℓ κ} {A : Type ℓ} (P : A → Type κ) where
  pub All-append : (xs ys : List A) → All P xs → All P ys → All P (xs ++ ys)
  All-append [] ys hx hy = hy
  All-append (x ∷ xs) ys hx hy = (hx.0, All-append xs ys hx.1 hy)

  All-insert_by :
      (le : A → A → Bool) (a : A) (xs : List A) → P a → All P xs → All P (insert_by le a xs)
  unfolding insert_by
  All-insert_by le a [] p h = (p, tt)
  All-insert_by le a (b ∷ xs) p h = ground (arith, All-insert_by le a xs p h.1)

  pub All-sort_by : (le : A → A → Bool) (xs : List A) → All P xs → All P (sort_by le xs)
  unfolding sort_by
  All-sort_by le [] h = tt
  All-sort_by le (a ∷ xs) h = All-insert_by le a (sort_by le xs) h.0 (All-sort_by le xs h.1)

  pub All-take : (n : ℕ) (xs : List A) → All P xs → All P (take n xs)
  All-take zero xs h = tt
  All-take (suc n) [] h = tt
  All-take (suc n) (a ∷ xs) h = (h.0, All-take n xs h.1)

  pub All-keep : (p : A → Bool) (xs : List A) → All P xs → All P (keep p xs)
  All-keep p [] h = h
  All-keep p (x ∷ xs) h = ground (arith, All-keep p xs h.1)

-- Tests on the images of a function.
module _ {ℓ κ} {A : Type ℓ} {B : Type κ} (f : A → B) (p : B → Bool) (q : A → Bool) where
  -- The two tests agree on a list.
  abbrev pub Agree : List A → Type 0
  Agree [] = Unit
  Agree (x ∷ xs) = (p (f x) ≡ q x) × Agree xs

  pub keep-map : (xs : List A) → Agree xs → keep p (map f xs) ≡ map f (keep q xs)
  keep-map [] h = refl
  keep-map (x ∷ xs) h = ground (arith, keep-map xs h.1)

  pub count-map : (xs : List A) → Agree xs → count p (map f xs) ≡ count q xs
  count-map [] h = refl
  count-map (x ∷ xs) h = ground (arith, count-map xs h.1)

  pub any-map : (xs : List A) → Agree xs → any p (map f xs) ≡ any q xs
  any-map [] h = refl
  any-map (x ∷ xs) h = ground (arith, any-map xs h.1)

  pub Agree-always : ((x : A) → p (f x) ≡ q x) → (xs : List A) → Agree xs
  Agree-always h [] = tt
  Agree-always h (x ∷ xs) = (h x, Agree-always h xs)
