-- ===== src/Playlists/Order.antt =====
-- A playlist has its items in the order in which they were added, and no download twice.
use getoffline.Base.{
  keep_passes, ℕ, ◌≤◌, ◌<◌, Bool, true, false, Bool-cases, inl, inr, List, [], ◌∷◌, ◌++◌, ◌≡◌, refl,
  ap, ◌∙◌, arith, nat_eq, count, keep, sort_by, insert_by, All, All-append, All-keep,
}
use getoffline.Playlists.{Item, Playlists, is_in, is_item, is_before, listed}

module _ {A : Type 0} where
  abbrev pub Pairwise : (A → A → Type 0) → List A → Type 0
  Pairwise R [] = Unit
  Pairwise R (x ∷ xs) = All (R x) xs × Pairwise R xs

  pub Pairwise-keep :
      (R : A → A → Type 0) (p : A → Bool) (xs : List A) → Pairwise R xs → Pairwise R (keep p xs)
  Pairwise-keep R p [] h = tt
  Pairwise-keep R p (x ∷ xs) h = elim (Bool-cases (p x)) [
    | inl e ↦ rw e (All-keep (R x) p xs h.0, Pairwise-keep R p xs h.1)
    | inr e ↦ rw e (Pairwise-keep R p xs h.1)
  ]

  pub Pairwise-append :
      (R : A → A → Type 0) (xs : List A) (y : A)
      → Pairwise R xs
      → All (λ x. R x y) xs
      → Pairwise R (xs ++ y ∷ [])
  Pairwise-append R [] y h a = (tt, tt)
  Pairwise-append R (x ∷ xs) y h a =
      (All-append (R x) xs (y ∷ []) h.0 (a.0, tt), Pairwise-append R xs y h.1 a.1)

  All-among :
      (P : A → Type 0) (R S : A → A → Type 0) (x : A)
      → ((y : A) → P y → R x y → S x y)
      → (xs : List A) → All P xs
      → All (R x) xs
      → All (S x) xs
  All-among P R S x f [] a h = tt
  All-among P R S x f (y ∷ xs) a h = (f y a.0 h.0, All-among P R S x f xs a.1 h.1)

  Pairwise-weaken :
      (P : A → Type 0) (R S : A → A → Type 0)
      → ((x y : A) → P x → P y → R x y → S x y)
      → (xs : List A) → All P xs
      → Pairwise R xs
      → Pairwise S xs
  Pairwise-weaken P R S f [] a h = tt
  Pairwise-weaken P R S f (x ∷ xs) a h =
      (All-among P R S x (λ y. f x y a.0) xs a.1 h.0, Pairwise-weaken P R S f xs a.1 h.1)

  insert_first :
      (le : A → A → Bool) (x : A) (xs : List A)
      → All (λ y. le x y ≡ true) xs
      → insert_by le x xs ≡ x ∷ xs
  unfolding insert_by
  insert_first le x [] h = refl
  insert_first le x (y ∷ xs) h = rw h.0 refl

  sort_sorted :
      (le : A → A → Bool) (xs : List A) → Pairwise (λ x y. le x y ≡ true) xs → sort_by le xs ≡ xs
  unfolding sort_by
  sort_sorted le [] h = refl
  sort_sorted le (x ∷ xs) h = ap (insert_by le x) (sort_sorted le xs h.1) ∙ insert_first le x xs h.0

-- The first item was added before the second.
abbrev pub Precedes : Item → Item → Type 0
Precedes x y =
    (x.id < y.id)
    × (nat_eq x.playlist_id y.playlist_id ≡ true
        → (x.position ≤ y.position) × (nat_eq x.download_id y.download_id ≡ false))

abbrev pub Bounded : ℕ → List Item → Type 0
Bounded n items = All (λ x. x.id < n) items

-- The items are in the order of their keys, and so are the positions in each playlist, where no download
-- is twice.
abbrev pub AreOrdered : List Item → ℕ → Type 0
AreOrdered items next = Pairwise Precedes items × Bounded next items

before_of_Precedes :
    (q : ℕ) (x y : Item) → is_in q x ≡ true → is_in q y ≡ true → Precedes x y → is_before x y ≡ true
before_of_Precedes q x y ix iy h = ground (arith, h.0, h.1)

pub listed_of_ordered :
    (q : ℕ) (p : Playlists) → AreOrdered p.items p.next_item → listed q p ≡ keep (is_in q) p.items
unfolding listed
listed_of_ordered q p h = sort_sorted is_before (keep (is_in q) p.items) (
    Pairwise-weaken (λ x. is_in q x ≡ true) Precedes (λ x y. is_before x y ≡ true)
      (before_of_Precedes q) (keep (is_in q) p.items) (keep_passes (is_in q) p.items)
      (Pairwise-keep Precedes (is_in q) p.items h.0))

count_later :
    (q d : ℕ) (x : Item) (items : List Item)
    → is_item q d x ≡ true
    → All (Precedes x) items
    → count (is_item q d) items ≡ 0
count_later q d x [] i h = refl
count_later q d x (y ∷ items) i h = ground (arith, h.0.1, count_later q d x items i h.1)

pub count_of_ordered :
    (q d : ℕ) (items : List Item) → Pairwise Precedes items → count (is_item q d) items ≤ 1
count_of_ordered q d [] h = omega arith
count_of_ordered q d (x ∷ items) h = elim (Bool-cases (is_item q d x)) [
  | inl e ↦ rw e (omega (arith, count_later q d x items e h.0))
  | inr e ↦ rw e (count_of_ordered q d items h.1)
]
