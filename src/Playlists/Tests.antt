-- ===== src/Playlists/Tests.antt =====
-- The theorem on the playlists at small inputs, and the position of a second item.
use getoffline.Base.{
  ℕ, ◌≤◌, ◌≡◌, refl, false, none, List, [], ◌∷◌, keep, map, count, codes, int, pos,
}
use getoffline.Library.{Download}
use getoffline.Playlists.{is_in, is_item, listed, several}
use getoffline.Playlists.Runs.{
  Op, create, add_items, apply, run_ops, no_playlists, playlist_keeps_order,
}

abbrev download : ℕ → Download
download id = record {
  id = id;
  profile_id = "home";
  source_type = codes "podcast";
  source_name = codes "news";
  source_url = none;
  item_uid = none;
  item_id = none;
  item_url = none;
  media_url = none;
  title = none;
  file_path = none;
  file_ext = none;
  subtitle_path = none;
  subtitle_path_relative = none;
  download_status = codes "downloaded";
  played = false;
  favorite = false;
  played_at = none;
  last_seen_at = 1;
}

abbrev downloads : List Download
downloads = download 4 ∷ download 5 ∷ []

abbrev ops : List Op
ops =
    create 1 "home" (codes "mix")
    ∷ add_items downloads 2 "home" 1 (several (int (pos 5) ∷ []))
    ∷ add_items downloads 3 "home" 1 (several (int (pos 4) ∷ int (pos 5) ∷ []))
    ∷ []

playlist_keeps_order_example :
    (listed 1 (run_ops ops no_playlists) ≡ keep (is_in 1) (run_ops ops no_playlists).items)
    × (count (is_item 1 5) (run_ops ops no_playlists).items ≤ 1)
playlist_keeps_order_example = playlist_keeps_order ops 1 5

both_first : map (λ x. x.position) (listed 1 (run_ops ops no_playlists)) ≡ 0 ∷ 0 ∷ []
unfolding run_ops listed apply
both_first = refl
