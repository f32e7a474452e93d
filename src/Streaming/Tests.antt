-- ===== src/Streaming/Tests.antt =====
-- The theorems on byte ranges at small inputs, and the answer for an empty file.
use getoffline.Base.{ℕ, ◌≡◌, refl, some, List, [], ◌∷◌, take, drop, All, codes, pos}
use getoffline.Streaming.{Served, media_range, file_range_iterator}
use getoffline.Streaming.Ranges.{IsRange, media_range_is_in_file}
use getoffline.Streaming.Chunks.{flatten, IsChunk, file_range_iterator_yields_range}

abbrev last_bytes : Served
last_bytes = record { start = pos 7; last = pos 9; length = pos 3 }

served : media_range 10 (codes "bytes=-3") ≡ some last_bytes
unfolding media_range
served = refl

media_range_is_in_file_example : IsRange 10 last_bytes
media_range_is_in_file_example = media_range_is_in_file 9 (codes "bytes=-3") last_bytes served

file_range_iterator_yields_range_example :
    (chunks : List (List ℕ)) × (file_range_iterator (5 ∷ 6 ∷ 7 ∷ []) 1 9 ≡ some chunks)
    × (flatten chunks ≡ take 9 (drop 1 (5 ∷ 6 ∷ 7 ∷ [])))
    × All IsChunk chunks
file_range_iterator_yields_range_example = file_range_iterator_yields_range (5 ∷ 6 ∷ 7 ∷ []) 1 9

-- An empty file is announced with one byte.
empty_file_range :
    media_range 0 (codes "bytes=0-0")
    ≡ some (record { start = pos 0; last = pos 0; length = pos 1 })
unfolding media_range
empty_file_range = refl
