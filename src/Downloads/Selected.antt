-- ===== src/Downloads/Selected.antt =====
-- What a batch of downloads changes.
use getoffline.Base.{
  decimal, codes, ◌++◌, ℕ, String, Bool, true, false, not, List, [], ◌∷◌, ◌≡◌, refl, ap, ◌∙◌, keep,
  update_where, keep-update_apart, keep-keep_apart, All, Text, strip,
}
use getoffline.Library.{Download}
use getoffline.Actions.{Form, field}
use getoffline.Sources.Edits.{posted_source_ids}
use getoffline.Discovery.Active.{HasActive, create_job_active, create_job-HasActive}
use getoffline.Downloads.{
  State, Batch, played_rows, unplayed_rows, favorite_rows, unfavorite_rows, delete_rows, purge_rows,
  download_rows, other_rows, marked_played, marked_unplayed, with_favorite, without_file,
  is_selected, redownload_key, redownload, redownload_all, batch_of, run_batch, batch_update,
}

module _ (profile : String) where
  redownload_active :
      (now : ℕ) (d : Download) (s : State)
      → HasActive (redownload_key profile d) (redownload now profile d s).db.rows
  unfolding redownload
  redownload_active now d s = (create_job_active 100 _ now profile "download_single" _ s.db).0

  redownload_keeps :
      (now : ℕ) (d : Download) (s : State) (key : Text)
      → HasActive key s.db.rows
      → HasActive key (redownload now profile d s).db.rows
  unfolding redownload
  redownload_keeps now d s key h =
      create_job-HasActive 100 _ now profile "download_single" _ s.db key h

  all_keep :
      (now : ℕ) (ds : List Download) (s : State) (key : Text)
      → HasActive key s.db.rows
      → HasActive key (redownload_all now profile ds s).db.rows
  unfolding redownload_all
  all_keep now [] s key h = h
  all_keep now (d ∷ ds) s key h =
      all_keep now ds (redownload now profile d s) key (redownload_keeps now d s key h)

  All-active :
      (now : ℕ) (ds : List Download) (s : State)
      → All (λ d. HasActive (redownload_key profile d) (redownload_all now profile ds s).db.rows) ds
  unfolding redownload_all
  All-active now [] s = tt
  All-active now (d ∷ ds) s = (
    all_keep now ds (redownload now profile d s) (redownload_key profile d)
        (redownload_active now d s),
    All-active now ds (redownload now profile d s),
  )

  all_leave :
      (now : ℕ) (ds : List Download) (s : State)
      → (redownload_all now profile ds s).downloads ≡ s.downloads
  unfolding redownload_all redownload
  all_leave now [] s = refl
  all_leave now (d ∷ ds) s = all_leave now ds (redownload now profile d s)

  module _ (ids : List ℕ) where
    abbrev pub is_left : Download → Bool
    is_left d = not (is_selected profile ids d)

    -- Rows that are not selected stay, and so do the keys of active jobs.
    abbrev Leaves : State → State → Type 0
    Leaves before after =
        (keep is_left after.downloads ≡ keep is_left before.downloads)
        × ((key : Text) → HasActive key before.db.rows → HasActive key after.db.rows)

    update-Leaves :
        (f : Download → Download) (rows : List Download)
        → ((d : Download) → is_selected profile ids (f d) ≡ is_selected profile ids d)
        → keep is_left (update_where (is_selected profile ids) f rows) ≡ keep is_left rows
    update-Leaves f rows same =
        keep-update_apart is_left (is_selected profile ids) f rows (λ d e. ap not e)
          (λ d e. ap not (same d ∙ e))

    run_batch-Leaves : (now : ℕ) (b : Batch) (s : State) → Leaves s (run_batch now profile ids b s)
    run_batch-Leaves now played_rows s =
        (update-Leaves (marked_played now) s.downloads (λ d. refl), λ key h. h)
    run_batch-Leaves now unplayed_rows s =
        (update-Leaves (marked_unplayed now) s.downloads (λ d. refl), λ key h. h)
    run_batch-Leaves now favorite_rows s =
        (update-Leaves (with_favorite true now) s.downloads (λ d. refl), λ key h. h)
    run_batch-Leaves now unfavorite_rows s =
        (update-Leaves (with_favorite false now) s.downloads (λ d. refl), λ key h. h)
    run_batch-Leaves now delete_rows s =
        (update-Leaves (without_file now) s.downloads (λ d. refl), λ key h. h)
    run_batch-Leaves now purge_rows s = (
      keep-keep_apart is_left (λ d. not (is_selected profile ids d)) s.downloads (λ d e. e),
      λ key h. h,
    )
    run_batch-Leaves now download_rows s = (
      ap (keep is_left) (all_leave now (keep (is_selected profile ids) s.downloads) s),
      λ key h. all_keep now (keep (is_selected profile ids) s.downloads) s key h,
    )
    run_batch-Leaves now other_rows s = (refl, λ key h. h)

-- A batch, whatever its action, leaves the downloads alone that it does not select or that belong to
-- another profile.
pub batch_update_leaves_others :
    (now : ℕ) (profile : String) (values : List Text) (form : Form) (s : State)
    → keep
        (is_left profile (posted_source_ids values))
        (batch_update now profile values form s).downloads
      ≡ keep (is_left profile (posted_source_ids values)) s.downloads
unfolding batch_update
batch_update_leaves_others now profile values form s =
    (run_batch-Leaves profile (posted_source_ids values) now
      (batch_of (strip (field form "batch_action"))) s).0

-- the key "download_single:<profile>:<id>"
abbrev pub own_key : String → Download → Text
own_key profile d = codes "download_single:" ++ (codes profile ++ (codes ":" ++ decimal d.id))

-- After a batch with the action "download", an active job has the key
-- "download_single:<profile>:<id>" of each download that it selects.
pub batch_download_queues :
    (now : ℕ) (profile : String) (values : List Text) (form : Form) (s : State)
    → batch_of (strip (field form "batch_action")) ≡ download_rows
    → All
        (λ d. HasActive (own_key profile d) (batch_update now profile values form s).db.rows)
        (keep (is_selected profile (posted_source_ids values)) s.downloads)
unfolding batch_update
batch_download_queues now profile values form s e =
    rw e
      (All-active profile now (keep (is_selected profile (posted_source_ids values)) s.downloads) s)
