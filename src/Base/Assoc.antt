-- ===== src/Base/Assoc.antt =====
-- Python's `dict` with string keys, as the list of its entries in insertion order.
use Prim.Native.Nat.{◌+◌, ◌≤◌}
use Prim.Native.String.{String}
use mathlib.Core.Path.{◌≡◌, refl}
use mathlib.Core.Logic.{◌≢◌, inl, inr}
use mathlib.Core.Bool.{Bool, true, false, not}
use mathlib.Core.Option.{Option, none, some}
use mathlib.Core.List.{List, [], ◌∷◌}
use native.Mathlib.Omega.{arith}
use text.Mathlib.Text.{◌==◌}
use text.Mathlib.TextEquality.{eq_iff}
use getoffline.Base.Tests.{Bool-cases, if◌then◌else◌}
use getoffline.Base.Lists.{count, keep, count-keep-le, any}

module _ {ℓ} {V : Type ℓ} where
  -- d.get(k)
  unfoldable pub lookup : String → List (String × V) → Option V
  lookup k [] = none
  lookup k ((j, v) ∷ d) = if j == k then some v else lookup k d

  -- d[k] = v: a key that is there keeps its place
  unfoldable pub put : String → V → List (String × V) → List (String × V)
  put k v [] = (k, v) ∷ []
  put k v ((j, w) ∷ d) = if j == k then (k, v) ∷ d else (j, w) ∷ put k v d

  -- d.pop(k, None)
  unfoldable pub pop : String → List (String × V) → List (String × V)
  pop k d = keep (λ e. not (e.0 == k)) d

  -- `k` is no key.
  abbrev pub IsFresh : String → List (String × V) → Type 0
  IsFresh k [] = Unit
  IsFresh k ((j, v) ∷ d) = (j ≢ k) × IsFresh k d

  -- No key stands twice.
  abbrev pub IsDict : List (String × V) → Type 0
  IsDict [] = Unit
  IsDict ((j, v) ∷ d) = IsFresh j d × IsDict d

  pub lookup-put :
      (k j : String) (v : V) (d : List (String × V))
      → lookup j (put k v d) ≡ (if k == j then some v else lookup j d)
  unfolding lookup put
  lookup-put k j v [] = refl
  lookup-put k j v ((i, w) ∷ d) =
      ground (arith, eq_iff k j, eq_iff i k, eq_iff i j, lookup-put k j v d)

  -- the entry of `k`, if it passes the test
  abbrev pub passing : (String × V → Bool) → String → Option V → Option V
  passing p k none = none
  passing p k (some v) = if p (k, v) then some v else none

  lookup-keep_of_IsFresh :
      (k : String) (p : String × V → Bool) (d : List (String × V))
      → IsFresh k d
      → lookup k (keep p d) ≡ none
  unfolding lookup
  lookup-keep_of_IsFresh k p [] u = refl
  lookup-keep_of_IsFresh k p ((j, w) ∷ d) u =
      ground (arith, eq_iff j k, lookup-keep_of_IsFresh k p d u.1)

  pub lookup-keep :
      (k : String) (p : String × V → Bool) (d : List (String × V))
      → IsDict d
      → lookup k (keep p d) ≡ passing p k (lookup k d)
  unfolding lookup
  lookup-keep k p [] u = refl
  lookup-keep k p ((j, w) ∷ d) u =
      ground (arith, eq_iff j k, lookup-keep k p d u.1, lookup-keep_of_IsFresh k p d)

  pub count-put-le :
      (p : String × V → Bool) (k : String) (v : V) (d : List (String × V))
      → count p (put k v d) ≤ count p d + 1
  unfolding put
  count-put-le p k v [] = ground arith
  count-put-le p k v ((j, w) ∷ d) = ground (arith, count-put-le p k v d)

  IsFresh-put :
      (i k : String) (v : V) (d : List (String × V)) → k ≢ i → IsFresh i d → IsFresh i (put k v d)
  unfolding put
  IsFresh-put i k v [] n h = (n, tt)
  IsFresh-put i k v ((j, w) ∷ d) n h = ground (arith, IsFresh-put i k v d n h.1)

  pub IsDict-put : (k : String) (v : V) (d : List (String × V)) → IsDict d → IsDict (put k v d)
  unfolding put
  IsDict-put k v [] h = (tt, tt)
  IsDict-put k v ((j, w) ∷ d) h =
      ground (arith, eq_iff j k, IsFresh-put j k v d, IsDict-put k v d h.1)

  IsFresh-keep :
      (k : String) (p : String × V → Bool) (d : List (String × V))
      → IsFresh k d
      → IsFresh k (keep p d)
  IsFresh-keep k p [] h = h
  IsFresh-keep k p ((j, w) ∷ d) h = ground (arith, IsFresh-keep k p d h.1)

  pub IsDict-keep : (p : String × V → Bool) (d : List (String × V)) → IsDict d → IsDict (keep p d)
  IsDict-keep p [] h = h
  IsDict-keep p ((j, w) ∷ d) h = ground (arith, IsFresh-keep j p d h.0, IsDict-keep p d h.1)

  -- A count that the new entry does not raise.
  pub count-put-le_of_not :
      (p : String × V → Bool) (k : String) (v : V) (d : List (String × V))
      → p (k, v) ≡ false
      → count p (put k v d) ≤ count p d
  unfolding put
  count-put-le_of_not p k v [] h = ground arith
  count-put-le_of_not p k v ((j, w) ∷ d) h = ground (arith, count-put-le_of_not p k v d h)

  pub count-put_same :
      (p : String × V → Bool) (k : String) (v w : V) (d : List (String × V))
      → lookup k d ≡ some w
      → p (k, v) ≡ p (k, w)
      → count p (put k v d) ≡ count p d
  unfolding lookup put
  count-put_same p k v w [] h e = cc
  count-put_same p k v w ((j, u) ∷ d) h e = ground (arith, eq_iff j k, count-put_same p k v w d)

  pub count-pop-le :
      (p : String × V → Bool) (k : String) (d : List (String × V)) → count p (pop k d) ≤ count p d
  unfolding pop
  count-pop-le p k d = count-keep-le p _ d

  pub IsDict-pop : (k : String) (d : List (String × V)) → IsDict d → IsDict (pop k d)
  unfolding pop
  IsDict-pop k d h = IsDict-keep _ d h

  pub lookup-pop :
      (k j : String) (d : List (String × V))
      → lookup j (pop k d) ≡ (if k == j then none else lookup j d)
  unfolding lookup pop
  lookup-pop k j [] = ground arith
  lookup-pop k j ((i, w) ∷ d) = ground (arith, eq_iff i k, eq_iff i j, eq_iff k j, lookup-pop k j d)

  -- An entry that is there passes on what its test says.
  pub any_of_lookup :
      (p : String × V → Bool) (k : String) (v : V) (d : List (String × V))
      → lookup k d ≡ some v
      → p (k, v) ≡ true
      → any p d ≡ true
  unfolding lookup
  any_of_lookup p k v [] h e = cc
  any_of_lookup p k v ((j, w) ∷ d) h e = ground (arith, eq_iff j k, any_of_lookup p k v d)

  lookup_ne_of_IsFresh :
      (k j : String) (v : V) (d : List (String × V)) → IsFresh k d → lookup j d ≡ some v → k ≢ j
  unfolding lookup
  lookup_ne_of_IsFresh k j v [] u h = cc
  lookup_ne_of_IsFresh k j v ((i, w) ∷ d) u h =
      ground (arith, eq_iff i j, lookup_ne_of_IsFresh k j v d u.1)

  pub lookup_of_any :
      (p : String × V → Bool) (d : List (String × V))
      → IsDict d
      → any p d ≡ true
      → (k : String) × (v : V) × (lookup k d ≡ some v) × (p (k, v) ≡ true)
  unfolding lookup
  lookup_of_any p [] u h = cc
  lookup_of_any p ((j, w) ∷ d) u h = elim (Bool-cases (p (j, w))) [
    | inl here ↦ (j, w, ground (arith, eq_iff j j), here)
    | inr later ↦
        let (k, v, found, passes) = lookup_of_any p d u.1 (ground arith) in
        (k, v, ground (arith, eq_iff j k, lookup_ne_of_IsFresh j k v d u.0), passes)
  ]
