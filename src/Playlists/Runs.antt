-- ===== src/Playlists/Runs.antt =====
-- The requests on the playlists, in any order.
use getoffline.Base.{
  ℕ, ◌≤◌, ◌<◌, String, Bool, not, ◌&&◌, ◌||◌, Bool-cases, Option-cases, inl, inr, List, [], ◌∷◌,
  ◌==◌, ◌≡◌, ltb, any, count, keep, All-keep, is_empty, strip, length, Text, text_eq,
}
use getoffline.Library.{Download}
use getoffline.Playlists.{
  Item, Playlists, is_in, is_item, is_own, listed, playlist_create, RawIds, values_of,
  found_downloads, playlist_add_items, playlist_remove_item, playlist_delete,
}
use getoffline.Playlists.Order.{
  Precedes, AreOrdered, Pairwise-keep, listed_of_ordered, count_of_ordered,
}
use getoffline.Playlists.Added.{add_found-AreOrdered}

abbrev Ordered : Playlists → Type 0
Ordered p = AreOrdered p.items p.next_item

keep-Ordered :
    (q : Item → Bool) (items : List Item) (n : ℕ) → AreOrdered items n → AreOrdered (keep q items) n
keep-Ordered q items n h =
    (Pairwise-keep Precedes q items h.0, All-keep (λ x. x.id < n) q items h.1)

-- A request: its time, its profile and its fields.
pub data Op : Type 0 where
  create : ℕ → String → Text → Op
  add_items : List Download → ℕ → String → ℕ → RawIds → Op
  remove_item : ℕ → String → ℕ → ℕ → Op
  delete : String → ℕ → Op

unfoldable pub apply : Op → Playlists → Playlists
unfolding playlist_create playlist_add_items playlist_remove_item playlist_delete
apply (create now profile name) p = (playlist_create now profile name p).0
apply (add_items downloads now profile playlist raw) p =
    (playlist_add_items downloads now profile playlist raw p).0
apply (remove_item now profile playlist download) p =
    (playlist_remove_item now profile playlist download p).0
apply (delete profile playlist) p = (playlist_delete profile playlist p).0

unfoldable pub run_ops : List Op → Playlists → Playlists
run_ops [] p = p
run_ops (op ∷ ops) p = run_ops ops (apply op p)

abbrev pub no_playlists : Playlists
no_playlists = record { playlists = []; items = []; next_playlist = 1; next_item = 1 }

create-Ordered :
    (now : ℕ) (profile : String) (raw : Text) (p : Playlists)
    → Ordered p
    → Ordered (playlist_create now profile raw p).0
unfolding playlist_create
create-Ordered now profile raw p h =
    elim (Bool-cases (is_empty (strip raw) || ltb 255 (length (strip raw)))) [
      | inl e ↦ rw e h
      | inr e ↦
          elim (Bool-cases
            (any (λ row. row.profile_id == profile && text_eq row.name (strip raw)) p.playlists)) [
              | inl e' ↦ rw (e, e') h
              | inr e' ↦ rw (e, e') h
            ]
    ]

add-Ordered :
    (downloads : List Download) (now : ℕ) (profile : String) (playlist : ℕ) (raw : RawIds)
    (p : Playlists)
    → Ordered p
    → Ordered (playlist_add_items downloads now profile playlist raw p).0
unfolding playlist_add_items
add-Ordered downloads now profile playlist raw p h =
    elim (Bool-cases (any (is_own profile playlist) p.playlists)) [
      | inl e ↦ elim (Option-cases (values_of raw)) [
        | inl n ↦ rw (e, playlist_add_items, n) h
        | inr (values, n) ↦
            rw (e, playlist_add_items, n)
              (add_found-AreOrdered now playlist (found_downloads downloads profile values) p h)
      ]
      | inr e ↦ rw e h
    ]

remove-Ordered :
    (now : ℕ) (profile : String) (playlist download : ℕ) (p : Playlists)
    → Ordered p
    → Ordered (playlist_remove_item now profile playlist download p).0
unfolding playlist_remove_item
remove-Ordered now profile playlist download p h =
    elim (Bool-cases (any (is_own profile playlist) p.playlists)) [
      | inl e ↦ elim (Bool-cases (any (is_item playlist download) p.items)) [
        | inl e' ↦
            rw (e, e') (keep-Ordered (λ x. not (is_item playlist download x)) p.items p.next_item h)
        | inr e' ↦ rw (e, e') h
      ]
      | inr e ↦ rw e h
    ]

delete-Ordered :
    (profile : String) (playlist : ℕ) (p : Playlists)
    → Ordered p
    → Ordered (playlist_delete profile playlist p).0
unfolding playlist_delete
delete-Ordered profile playlist p h =
    elim (Bool-cases (any (is_own profile playlist) p.playlists)) [
      | inl e ↦ rw e (keep-Ordered (λ x. not (is_in playlist x)) p.items p.next_item h)
      | inr e ↦ rw e h
    ]

apply-Ordered : (op : Op) (p : Playlists) → Ordered p → Ordered (apply op p)
unfolding apply
apply-Ordered (create now profile name) p h = create-Ordered now profile name p h
apply-Ordered (add_items downloads now profile playlist raw) p h =
    add-Ordered downloads now profile playlist raw p h
apply-Ordered (remove_item now profile playlist download) p h =
    remove-Ordered now profile playlist download p h
apply-Ordered (delete profile playlist) p h = delete-Ordered profile playlist p h

run_ops-Ordered : (ops : List Op) (p : Playlists) → Ordered p → Ordered (run_ops ops p)
unfolding run_ops
run_ops-Ordered [] p h = h
run_ops-Ordered (op ∷ ops) p h = run_ops-Ordered ops (apply op p) (apply-Ordered op p h)

-- After any requests of any profiles, also those that the database refuses, each playlist lists its items
-- in the order in which they were added, and has no download twice.
pub playlist_keeps_order :
    (ops : List Op) (playlist download : ℕ)
    → (listed playlist (run_ops ops no_playlists)
        ≡ keep (is_in playlist) (run_ops ops no_playlists).items)
      × (count (is_item playlist download) (run_ops ops no_playlists).items ≤ 1)
playlist_keeps_order ops playlist download =
    let h : Ordered (run_ops ops no_playlists) = run_ops-Ordered ops no_playlists (tt, tt) in
    (
      listed_of_ordered playlist (run_ops ops no_playlists) h,
      count_of_ordered playlist download (run_ops ops no_playlists).items h.0,
    )
