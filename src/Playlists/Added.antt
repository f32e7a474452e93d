-- ===== src/Playlists/Added.antt =====
-- Items that are added to a playlist come after those that it has.
use getoffline.Base.{
  ℕ, zero, suc, ◌≤◌, ◌<◌, true, false, Bool-cases, Option, none, some, inl, inr, List, [], ◌∷◌, ◌≡◌,
  refl, sym, subst, arith, any, All, All-append, All-weaken, Outcome, ok, err,
}
use getoffline.Playlists.{
  higher, Item, Playlists, is_in, is_item, highest_position, next_position, new_item, Adding,
  added_item, add_downloads, add_found, finish_adding,
}
use getoffline.Playlists.Order.{Precedes, Bounded, AreOrdered, Pairwise-append}

-- Each position in the playlist is at most the next one.
abbrev IsNext : ℕ → ℕ → List Item → Type 0
IsNext playlist position items = All (λ x. is_in playlist x ≡ true → x.position ≤ position) items

new_follows :
    (now id playlist d position : ℕ) (items : List Item)
    → Bounded id items
    → IsNext playlist position items
    → any (is_item playlist d) items ≡ false
    → All (λ x. Precedes x (new_item now id playlist d position)) items
new_follows now id playlist d position [] b n h = tt
new_follows now id playlist d position (x ∷ items) b n h = (
  (b.0, λ e. (n.0 e, ground arith)),
  new_follows now id playlist d position items b.1 n.1 (ground arith),
)

module _ (now playlist : ℕ) where
  added-AreOrdered :
      (position d : ℕ) (a : Adding)
      → AreOrdered a.items a.next_item
      → IsNext playlist position a.items
      → any (is_item playlist d) a.items ≡ false
      → AreOrdered (added_item now playlist position d a).items (suc a.next_item)
  added-AreOrdered position d a h n free = (
    Pairwise-append Precedes a.items (new_item now a.next_item playlist d position) h.0
        (new_follows now a.next_item playlist d position a.items h.1 n free),
    All-append (λ x. x.id < suc a.next_item) a.items _
        (All-weaken (λ x. x.id < a.next_item) (λ x. x.id < suc a.next_item) (λ x e. omega arith)
          a.items h.1)
        (omega arith, tt),
  )

  added-IsNext :
      (position d : ℕ) (a : Adding)
      → IsNext playlist position a.items
      → IsNext playlist (suc position) (added_item now playlist position d a).items
  added-IsNext position d a n =
      All-append (λ x. is_in playlist x ≡ true → x.position ≤ suc position) a.items _
        (All-weaken (λ x. is_in playlist x ≡ true → x.position ≤ position)
          (λ x. is_in playlist x ≡ true → x.position ≤ suc position) (λ x f e. omega (arith, f e))
          a.items n)
        ((λ e. omega arith), tt)

  add_downloads-AreOrdered :
      (existing : List Item) (position : ℕ) (downloads : List ℕ) (a : Adding)
      → AreOrdered a.items a.next_item
      → IsNext playlist position a.items
      → AreOrdered
          (add_downloads now playlist existing position downloads a).0.items
          (add_downloads now playlist existing position downloads a).0.next_item
  unfolding add_downloads
  add_downloads-AreOrdered existing position [] a h n = h
  add_downloads-AreOrdered existing position (d ∷ downloads) a h n =
      elim (Bool-cases (any (is_item playlist d) existing)) [
        | inl e ↦ rw e (add_downloads-AreOrdered existing position downloads a h n)
        | inr e ↦ elim (Bool-cases (any (is_item playlist d) a.items)) [
          | inl e' ↦ rw (e, e') h
          | inr free ↦
              rw (e, free)
                (add_downloads-AreOrdered existing (suc position) downloads
                  (added_item now playlist position d a) (added-AreOrdered position d a h n free)
                  (added-IsNext position d a n))
        ]
      ]

  abbrev Under : ℕ → Option ℕ → Type 0
  Under n none = ⊥
  Under n (some m) = n ≤ m

  Under-higher : (n p : ℕ) (o : Option ℕ) → Under n o → n ≤ higher p o
  Under-higher n p none h = absurd h
  Under-higher n p (some m) h = omega (arith, h)

  first_is_higher : (p : ℕ) (o : Option ℕ) → p ≤ higher p o
  first_is_higher p none = omega arith
  first_is_higher p (some m) = omega arith

  Under-next : (n : ℕ) (o : Option ℕ) → Under n o → n ≤ next_position o
  Under-next n none h = absurd h
  Under-next n (some zero) h = h
  Under-next n (some (suc m)) h = omega (arith, h)

  highest_in :
      (item : Item) (items : List Item)
      → is_in playlist item ≡ true
      → highest_position playlist (item ∷ items)
        ≡ some (higher item.position (highest_position playlist items))
  unfolding highest_position
  highest_in item items e = rw e refl

  highest_out :
      (item : Item) (items : List Item)
      → is_in playlist item ≡ false
      → highest_position playlist (item ∷ items) ≡ highest_position playlist items
  unfolding highest_position
  highest_out item items e = rw e refl

  All-Under :
      (items : List Item)
      → All
          (λ x. is_in playlist x ≡ true → Under x.position (highest_position playlist items))
          items
  All-Under [] = tt
  All-Under (item ∷ items) = elim (Bool-cases (is_in playlist item)) [
    | inl e ↦
        subst (λ o. All (λ x. is_in playlist x ≡ true → Under x.position o) (item ∷ items))
          (sym (highest_in item items e))
          (
            λ _. first_is_higher item.position (highest_position playlist items),
            All-weaken
                (λ x. is_in playlist x ≡ true → Under x.position (highest_position playlist items))
                _
                (λ x f i.
                  Under-higher x.position item.position (highest_position playlist items) (f i))
                items (All-Under items),
          )
    | inr e ↦
        subst (λ o. All (λ x. is_in playlist x ≡ true → Under x.position o) (item ∷ items))
          (sym (highest_out item items e)) ((λ i. absurd (ground arith)), All-Under items)
  ]

  highest_is_highest :
      (items : List Item) → IsNext playlist (next_position (highest_position playlist items)) items
  highest_is_highest items =
      All-weaken (λ x. is_in playlist x ≡ true → Under x.position (highest_position playlist items))
        (λ x.
          is_in playlist x ≡ true → x.position ≤ next_position (highest_position playlist items))
        (λ x f i. Under-next x.position (highest_position playlist items) (f i)) items
        (All-Under items)

  finish-AreOrdered :
      (p : Playlists) (x : Adding × Outcome (Unit {0}))
      → AreOrdered x.0.items x.0.next_item
      → AreOrdered
          (finish_adding now playlist p x).0.items
          (finish_adding now playlist p x).0.next_item
  finish-AreOrdered p (a, ok u) h = h
  finish-AreOrdered p (a, err e) h = h

  pub add_found-AreOrdered :
      (downloads : List ℕ) (p : Playlists)
      → AreOrdered p.items p.next_item
      → AreOrdered
          (add_found now playlist downloads p).0.items
          (add_found now playlist downloads p).0.next_item
  add_found-AreOrdered downloads p h = finish-AreOrdered p _ (
      add_downloads-AreOrdered p.items (next_position (highest_position playlist p.items)) downloads
        (record { items = p.items; next_item = p.next_item; count = 0 }) h
        (highest_is_highest p.items))
