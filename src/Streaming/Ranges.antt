-- ===== src/Streaming/Ranges.antt =====
-- Which ranges the response of a media file announces.
use getoffline.Base.{
  ℕ, suc, ◌+◌, ◌-◌, ◌≤◌, ◌<◌, Bool-cases, inl, inr, leb, Option, Option-cases, none, some, ◌≡◌,
  refl, arith, Text, ℤ, pos, negsuc, ◌+ℤ◌, ◌-ℤ◌, min_ℤ, max_ℤ, codes, subst,
}
use getoffline.Streaming.{
  Wanted, Served, clamp_range, media_range, end_of, after_prefix, wanted_or, wanted_range,
  partition_dash,
}

start_within :
    (last : ℕ) (z : ℤ) → (a : ℕ) × (a ≤ last) × (max_ℤ (pos 0) (min_ℤ z (pos last)) ≡ pos a)
start_within last (pos n) = elim (Bool-cases (leb n last)) [
  | inl h ↦ (n, ground arith, ground arith)
  | inr h ↦ (last, ground arith, ground arith)
]
start_within last (negsuc n) = (0, ground arith, ground arith)

end_within :
    (a last : ℕ) (e : Option ℤ)
    → a ≤ last
    → (b : ℕ) × (a ≤ b) × (b ≤ last) × (end_of (pos a) (pos last) e ≡ pos b)
end_within a last none h = (last, h, omega arith, refl)
end_within a last (some (negsuc n)) h = (a, omega arith, h, ground arith)
end_within a last (some (pos n)) h = elim (Bool-cases (leb n last)) [
  | inl k ↦ elim (Bool-cases (leb a n)) [
    | inl i ↦ (n, ground arith, ground arith, ground arith)
    | inr i ↦ (a, omega arith, h, ground arith)
  ]
  | inr k ↦ (last, h, omega arith, ground arith)
]

-- The range from byte `a` to byte `b` of a file of that size, and its length.
abbrev pub IsRange : ℕ → Served → Type 0
IsRange file_size s =
    (a : ℕ) × (b : ℕ) × (a ≤ b)
    × (b < file_size)
    × (s.start ≡ pos a)
    × (s.last ≡ pos b)
    × (s.length ≡ pos (b - a + 1))

length_of : (a b : ℕ) → a ≤ b → pos b -ℤ pos a +ℤ pos 1 ≡ pos (b - a + 1)
length_of a b h = ground arith

last_of : (n : ℕ) → pos (suc n) -ℤ pos 1 ≡ pos n
last_of n = ground arith

clamp_range-IsRange : (n : ℕ) (w : Wanted) → IsRange (suc n) (clamp_range (suc n) w)
unfolding clamp_range
clamp_range-IsRange n w =
    let (a, la, ea) = start_within n w.start in
    let (b, ab, bn, eb) = end_within a n w.requested_end la in
    (
      a,
      b,
      ab,
      omega arith,
      rw (last_of n) ea,
      rw (last_of n, ea) eb,
      rw (last_of n, ea, eb) (length_of a b ab),
    )

-- For a file that is not empty, every range that the response announces, whatever the header asks for,
-- lies in the file, and the announced length is the length of that range.
pub media_range_is_in_file :
    (n : ℕ) (range_header : Text) (s : Served)
    → media_range (suc n) range_header ≡ some s
    → IsRange (suc n) s
unfolding media_range
media_range_is_in_file n range_header s h =
    elim (Option-cases (after_prefix (codes "bytes=") range_header)) [
      | inl e ↦ ground arith
      | inr (range, e) ↦
          let w =
            wanted_or (wanted_range (suc n) (partition_dash range).0 (partition_dash range).1) in
          let same : clamp_range (suc n) w ≡ s = ground arith in
          subst (λ x. IsRange (suc n) x) same (clamp_range-IsRange n w)
    ]
