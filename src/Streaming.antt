-- ===== src/Streaming.antt =====
-- src/api/streaming/media.py: byte ranges of a media file. The file is the list of its bytes; the
-- types and the other headers of the response are not modelled.
pub mod Ranges
pub mod Chunks
mod Tests
use getoffline.Base.{
  ℕ, zero, suc, ◌+◌, ◌-◌, ◌*◌, min, Bool, true, false, ◌&&◌, Option, none, some, List, [], ◌∷◌,
  ◌++◌, nat_eq, take, drop, length, Text, codes, is_empty, parse_int, ℤ, pos, negsuc, sub_ℕ, ◌+ℤ◌,
  ◌-ℤ◌, min_ℤ, max_ℤ, pos_part, if◌then◌else◌,
}

abbrev pub media_range_chunk_size : ℕ
media_range_chunk_size = 64 * 1024

-- header.startswith(prefix), with what stands behind the prefix
unfoldable pub after_prefix : Text → Text → Option Text
after_prefix [] t = some t
after_prefix (c ∷ p) [] = none
after_prefix (c ∷ p) (d ∷ t) = let rest = after_prefix p t in if nat_eq c d then rest else none

-- text.partition("-"), without the separator
unfoldable pub partition_dash : Text → Text × Text
partition_dash [] = ([], [])
partition_dash (c ∷ t) =
    let (before, behind) = partition_dash t in if nat_eq c 45 then ([], t) else (c ∷ before, behind)

-- The start and the requested end of the `try`; `none` is its `ValueError`.
pub record Wanted : Type 0 where
  pub start : ℤ
  pub requested_end : Option ℤ

-- int(text) if text else default
abbrev int_or : Option ℤ → Text → Option (Option ℤ)
int_or default [] = some default
int_or default (c ∷ t) = elim (parse_int (c ∷ t)) [ none ↦ none | some z ↦ some (some z) ]

abbrev from_start : Option ℤ → Option (Option ℤ) → Option Wanted
from_start none e = none
from_start (some start) none = none
from_start (some start) (some e) = some (record { start = start; requested_end = e })

abbrev suffix_start : ℕ → Option ℤ → ℤ
suffix_start file_size none = pos 0
suffix_start file_size (some n) = max_ℤ (pos file_size -ℤ n) (pos 0)

abbrev from_suffix : ℕ → Option (Option ℤ) → Option Wanted
from_suffix file_size none = none
from_suffix file_size (some n) =
    some
      (record { start = suffix_start file_size n; requested_end = some (pos file_size -ℤ pos 1) })

unfoldable pub wanted_range : ℕ → Text → Text → Option Wanted
unfolding parse_int
wanted_range file_size start_text end_text =
    if is_empty start_text
    then from_suffix file_size (int_or (some (pos file_size)) end_text)
    else from_start (parse_int start_text) (int_or none end_text)

abbrev wanted_or : Option Wanted → Wanted
wanted_or none = record { start = pos 0; requested_end = none }
wanted_or (some w) = w

-- What the response says: `Content-Range: bytes start-end/size` and `Content-Length: length`.
pub record Served : Type 0 where
  pub start : ℤ
  pub last : ℤ
  pub length : ℤ

abbrev end_of : ℤ → ℤ → Option ℤ → ℤ
end_of start last none = last
end_of start last (some requested_end) = max_ℤ start (min_ℤ requested_end last)

unfoldable pub clamp_range : ℕ → Wanted → Served
clamp_range file_size w =
    let last = pos file_size -ℤ pos 1 in
    let start = max_ℤ (pos 0) (min_ℤ w.start last) in
    let finish = end_of start last w.requested_end in
    record { start = start; last = finish; length = finish -ℤ start +ℤ pos 1 }

-- The range of the response with status 206; `none` is the whole file, with status 200.
unfoldable pub media_range : ℕ → Text → Option Served
unfolding after_prefix partition_dash wanted_range clamp_range
media_range file_size range_header = elim (after_prefix (codes "bytes=") range_header) [
  | none ↦ none
  | some range ↦
      let (start_text, end_text) = partition_dash range in
      some (clamp_range file_size (wanted_or (wanted_range file_size start_text end_text)))
]

-- The loop of `file_range_iterator` over what the file has behind its position, on fuel; `none` means
-- that the fuel ran out.
unfoldable pub read_chunks : ℕ → List ℕ → ℕ → Option (List (List ℕ))
read_chunks zero behind remaining = none
read_chunks (suc fuel) behind remaining =
    let chunk = take (min media_range_chunk_size remaining) behind in
    let rest = read_chunks fuel (drop (length chunk) behind) (remaining - length chunk) in
    if nat_eq remaining 0
    then some []
    else if is_empty chunk
    then some []
    else elim rest [ none ↦ none | some chunks ↦ some (chunk ∷ chunks) ]

-- Each chunk takes a byte at least, so that the fuel is enough.
unfoldable pub file_range_iterator : List ℕ → ℕ → ℕ → Option (List (List ℕ))
unfolding read_chunks
file_range_iterator file start len = read_chunks (suc len) (drop start file) len
