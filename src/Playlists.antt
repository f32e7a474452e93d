-- ===== src/Playlists.antt =====
-- The playlists of src/api/views.py, over the tables `playlists` and `playlist_items` of
-- src/models/models.py. A request is one step; a row that would break the constraint on a playlist and a
-- download is refused by the database, and raises, and the rows before it stay.
pub mod Order
pub mod Added
pub mod Runs
mod Tests
use getoffline.Base.{
  ℕ, zero, suc, ◌+◌, String, Bool, true, false, not, ◌&&◌, ◌||◌, Option, none, some, List, [], ◌∷◌,
  ◌++◌, ◌==◌, nat_eq, leb, ltb, any, keep, first, sort_by, update_where, length, max, Text, text_eq,
  is_empty, strip, ℤ, pos, negsuc, int_of, Value, Exc, raised, codes, Outcome, ok, err,
  if◌then◌else◌,
}
use getoffline.Library.{Download}

pub record Playlist : Type 0 where
  pub id : ℕ
  pub profile_id : String
  pub name : Text
  pub created_at : ℕ
  pub updated_at : ℕ

pub record Item : Type 0 where
  pub id : ℕ
  pub playlist_id : ℕ
  pub download_id : ℕ
  pub position : ℕ
  pub added_at : ℕ

-- The tables in the order of their keys, and the next keys.
pub record Playlists : Type 0 where
  pub playlists : List Playlist
  pub items : List Item
  pub next_playlist : ℕ
  pub next_item : ℕ

pub data Answer : Type 0 where
  bad_name bad_ids not_found name_exists : Answer
  created : ℕ → Answer
  added : ℕ → Answer
  removed : Bool → Answer
  deleted : Answer

abbrev pub is_own : String → ℕ → Playlist → Bool
is_own profile id playlist = nat_eq playlist.id id && playlist.profile_id == profile

abbrev pub is_in : ℕ → Item → Bool
is_in playlist item = nat_eq item.playlist_id playlist

abbrev pub is_item : ℕ → ℕ → Item → Bool
is_item playlist download item = is_in playlist item && nat_eq item.download_id download

unfoldable pub playlist_create : ℕ → String → Text → Playlists → Playlists × Answer
unfolding strip text_eq
playlist_create now profile raw_name p =
    let name = strip raw_name in
    if is_empty name || ltb 255 (length name)
    then (p, bad_name)
    else if any (λ row. row.profile_id == profile && text_eq row.name name) p.playlists
    then (p, name_exists)
    else (
      record p {
        playlists =
            p.playlists
            ++ record {
              id = p.next_playlist;
              profile_id = profile;
              name = name;
              created_at = now;
              updated_at = now;
            }
              ∷ [];
        next_playlist = suc p.next_playlist;
      },
      created p.next_playlist,
    )

-- order_by("position", "id"), the order of `PlaylistItem`
abbrev pub is_before : Item → Item → Bool
is_before a b = ltb a.position b.position || (nat_eq a.position b.position && leb a.id b.id)

-- the items that `playlist_detail` lists
unfoldable pub listed : ℕ → Playlists → List Item
unfolding sort_by
listed playlist p = sort_by is_before (keep (is_in playlist) p.items)

-- What the body has for `download_ids` or `ids`.
pub data RawIds : Type 0 where
  text : Text → RawIds
  several : List Value → RawIds
  no_list : RawIds

-- a download of the profile under the number
abbrev is_download : String → ℤ → Download → Bool
is_download profile (negsuc n) d = false
is_download profile (pos n) d = nat_eq d.id n && d.profile_id == profile

abbrev key_of : ℤ → List ℕ
key_of (pos n) = n ∷ []
key_of (negsuc n) = []

-- The keys of `downloads`: the numbers that are posted, in their order and as often as they are, of those
-- downloads that the profile has.
unfoldable pub found_downloads : List Download → String → List Value → List ℕ
unfolding int_of
found_downloads downloads profile [] = []
found_downloads downloads profile (value ∷ values) =
    let rest = found_downloads downloads profile values in
    elim (int_of value) [
      | none ↦ rest
      | some z ↦ if any (is_download profile z) downloads then key_of z ++ rest else rest
    ]

abbrev pub higher : ℕ → Option ℕ → ℕ
higher position none = position
higher position (some n) = max position n

-- order_by("-position", "-id").first()
unfoldable pub highest_position : ℕ → List Item → Option ℕ
highest_position playlist [] = none
highest_position playlist (item ∷ items) =
    let rest = highest_position playlist items in
    if is_in playlist item then some (higher item.position rest) else rest

-- The first position that is given: one more than `highest or -1`.
abbrev pub next_position : Option ℕ → ℕ
next_position none = 0
next_position (some zero) = 0
next_position (some (suc n)) = suc (suc n)

abbrev pub new_item : ℕ → ℕ → ℕ → ℕ → ℕ → Item
new_item now id playlist download position = record {
  id = id;
  playlist_id = playlist;
  download_id = download;
  position = position;
  added_at = now;
}

-- The items, the next key, and how many were created.
pub record Adding : Type 0 where
  pub items : List Item
  pub next_item : ℕ
  pub count : ℕ

abbrev pub added_item : ℕ → ℕ → ℕ → ℕ → Adding → Adding
added_item now playlist position download a = record {
  items = a.items ++ new_item now a.next_item playlist download position ∷ [];
  next_item = suc a.next_item;
  count = suc a.count;
}

-- the loop; `position` is the next one, and `existing` has the downloads that were there before it
unfoldable pub add_downloads : ℕ → ℕ → List Item → ℕ → List ℕ → Adding → Adding × Outcome (Unit {0})
add_downloads now playlist existing position [] a = (a, ok tt)
add_downloads now playlist existing position (d ∷ downloads) a =
    let same = add_downloads now playlist existing position downloads a in
    let more =
      add_downloads now playlist existing (suc position) downloads
        (added_item now playlist position d a) in
    if any (is_item playlist d) existing
    then same
    else if any (is_item playlist d) a.items
    then (a, err (raised (codes "IntegrityError")))
    else more

abbrev touched : ℕ → Playlist → Playlist
touched now playlist = record playlist { updated_at = now }

abbrev pub finish_adding :
    ℕ → ℕ → Playlists → Adding × Outcome (Unit {0}) → Playlists × Outcome Answer
finish_adding now playlist p (a, ok u) = (
  record p {
    playlists = update_where (λ row. nat_eq row.id playlist) (touched now) p.playlists;
    items = a.items;
    next_item = a.next_item;
  },
  ok (added a.count),
)
finish_adding now playlist p (a, err e) =
    (record p { items = a.items; next_item = a.next_item }, err e)

abbrev pub values_of : RawIds → Option (List Value)
values_of (text t) = some (Value.str t ∷ [])
values_of (several values) = some values
values_of no_list = none

abbrev pub add_found : ℕ → ℕ → List ℕ → Playlists → Playlists × Outcome Answer
add_found now playlist downloads p = finish_adding now playlist p (
    add_downloads now playlist p.items (next_position (highest_position playlist p.items)) downloads
      (record { items = p.items; next_item = p.next_item; count = 0 }))

unfoldable pub playlist_add_items :
    List Download → ℕ → String → ℕ → RawIds → Playlists → Playlists × Outcome Answer
unfolding found_downloads add_downloads highest_position
playlist_add_items downloads now profile playlist raw p =
    if any (is_own profile playlist) p.playlists
    then elim (values_of raw) [
      | none ↦ (p, ok bad_ids)
      | some values ↦ add_found now playlist (found_downloads downloads profile values) p
    ]
    else (p, ok not_found)

unfoldable pub playlist_remove_item : ℕ → String → ℕ → ℕ → Playlists → Playlists × Answer
playlist_remove_item now profile playlist download p =
    if not (any (is_own profile playlist) p.playlists)
    then (p, not_found)
    else if any (is_item playlist download) p.items
    then (
      record p {
        playlists = update_where (λ row. nat_eq row.id playlist) (touched now) p.playlists;
        items = keep (λ item. not (is_item playlist download item)) p.items;
      },
      removed true,
    )
    else (p, removed false)

-- The rows of the items go with the playlist.
unfoldable pub playlist_delete : String → ℕ → Playlists → Playlists × Answer
playlist_delete profile playlist p =
    if any (is_own profile playlist) p.playlists
    then (
      record p {
        playlists = keep (λ row. not (is_own profile playlist row)) p.playlists;
        items = keep (λ item. not (is_in playlist item)) p.items;
      },
      deleted,
    )
    else (p, not_found)
