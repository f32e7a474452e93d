-- ===== src/Streaming/Chunks.antt =====
-- What the iterator over a range of a file yields.
use getoffline.Base.{
  ℕ, zero, suc, ◌-◌, ◌≤◌, ◌<◌, min, Bool-cases, inl, inr, Option, some, List, [], ◌∷◌, ◌++◌, ◌≡◌,
  refl, ap, arith, take, drop, length, All, nat_eq, is_empty, true, false, ◌∙◌, sym,
}
use getoffline.Streaming.{media_range_chunk_size, read_chunks, file_range_iterator}

abbrev pub flatten : List (List ℕ) → List ℕ
flatten [] = []
flatten (c ∷ cs) = c ++ flatten cs

length-take-le : (n : ℕ) (xs : List ℕ) → length (take n xs) ≤ n
length-take-le zero xs = omega arith
length-take-le (suc n) [] = omega arith
length-take-le (suc n) (x ∷ xs) = omega (arith, length-take-le n xs)

take_of_empty : (n : ℕ) → take {A = ℕ} n [] ≡ []
take_of_empty zero = refl
take_of_empty (suc n) = refl

take_again :
    (n m : ℕ) (xs : List ℕ)
    → n ≤ m
    → take n xs ++ take (m - length (take n xs)) (drop (length (take n xs)) xs) ≡ take m xs
take_again zero m xs h = ap (λ k. take k xs) (omega arith)
take_again (suc n) zero xs h = absurd (omega (arith, h))
take_again (suc n) (suc m) [] h = take_of_empty (suc m - 0)
take_again (suc n) (suc m) (x ∷ xs) h =
    let less : suc m - suc (length (take n xs)) ≡ m - length (take n xs) = omega arith in
    ap (λ ys. x ∷ ys)
      (ap (λ k. take n xs ++ take k (drop (length (take n xs)) xs)) less
        ∙ take_again n m xs (omega (arith, h)))

take_nothing : (n m : ℕ) (xs : List ℕ) → 1 ≤ n → is_empty (take n xs) ≡ true → take m xs ≡ []
take_nothing zero m xs h e = absurd (omega (arith, h))
take_nothing (suc n) zero [] h e = refl
take_nothing (suc n) (suc m) [] h e = refl
take_nothing (suc n) m (x ∷ xs) h e = cc

length_of_nonempty : (xs : List ℕ) → is_empty xs ≡ false → 1 ≤ length xs
length_of_nonempty [] h = cc
length_of_nonempty (x ∷ xs) h = omega arith

abbrev pub IsChunk : List ℕ → Type 0
IsChunk c = (1 ≤ length c) × (length c ≤ media_range_chunk_size)

abbrev AreChunksOf : Option (List (List ℕ)) → List ℕ → Type 0
AreChunksOf o bytes =
    (chunks : List (List ℕ)) × (o ≡ some chunks) × (flatten chunks ≡ bytes) × All IsChunk chunks

read_step :
    (fuel remaining : ℕ) (behind : List ℕ)
    → nat_eq remaining 0 ≡ false
    → is_empty (take (min media_range_chunk_size remaining) behind) ≡ false
    → AreChunksOf
        (read_chunks fuel
          (drop (length (take (min media_range_chunk_size remaining) behind)) behind)
          (remaining - length (take (min media_range_chunk_size remaining) behind)))
        (take
          (remaining - length (take (min media_range_chunk_size remaining) behind))
          (drop (length (take (min media_range_chunk_size remaining) behind)) behind))
    → AreChunksOf (read_chunks (suc fuel) behind remaining) (take remaining behind)
unfolding read_chunks
read_step fuel remaining behind z e (chunks, r, f, a) =
    let chunk = take (min media_range_chunk_size remaining) behind in
    (
      chunk ∷ chunks,
      rw (z, e, r) refl,
      rw f (take_again (min media_range_chunk_size remaining) remaining behind (omega arith)),
      (
        (
          length_of_nonempty chunk e,
          omega (arith, length-take-le (min media_range_chunk_size remaining) behind),
        ),
        a,
      ),
    )

read_chunks_lem :
    (fuel : ℕ) (behind : List ℕ) (remaining : ℕ)
    → remaining < fuel
    → AreChunksOf (read_chunks fuel behind remaining) (take remaining behind)
unfolding read_chunks
read_chunks_lem zero behind remaining h = absurd (omega (arith, h))
read_chunks_lem (suc fuel) behind remaining h = elim (Bool-cases (nat_eq remaining 0)) [
  | inl z ↦ ([], rw z refl, ground arith, tt)
  | inr z ↦ elim (Bool-cases (is_empty (take (min media_range_chunk_size remaining) behind))) [
    | inl e ↦ (
      [],
      rw (z, e) refl,
      sym (take_nothing (min media_range_chunk_size remaining) remaining behind (ground arith) e),
      tt,
    )
    | inr e ↦ read_step fuel remaining behind z e (
        read_chunks_lem fuel
          (drop (length (take (min media_range_chunk_size remaining) behind)) behind)
          (remaining - length (take (min media_range_chunk_size remaining) behind))
          (omega (
            arith,
            h,
            length_of_nonempty (take (min media_range_chunk_size remaining) behind) e,
            length-take-le (min media_range_chunk_size remaining) behind,
          )))
  ]
]

-- The iterator over a range ends, and its chunks put together are the bytes of the range that the
-- file has; each chunk has a byte at least and 64 KiB at most.
pub file_range_iterator_yields_range :
    (file : List ℕ) (start len : ℕ)
    → AreChunksOf (file_range_iterator file start len) (take len (drop start file))
unfolding file_range_iterator
file_range_iterator_yields_range file start len =
    read_chunks_lem (suc len) (drop start file) len (omega arith)
