-- ===== src/Library.antt =====
-- src/models/models.py: the rows of `SourceConfig` and `Download`, as the workers and the services use
-- them. A column that holds text is a list of code points; a float is a `Value`.
pub mod Queries
pub mod Pages
pub mod Counts
pub mod Next
mod Tests
use getoffline.Base.{ℕ, String, Bool, Option, Text, ℤ, Value}

pub record Source : Type 0 where
  pub id : ℕ
  pub profile_id : String
  pub source_type : Text
  pub position : ℤ
  pub name : Text
  pub url : Text
  pub media_type : Option Text
  pub enabled : Bool
  pub subtitles : Bool
  pub subtitle_offset_seconds : Value
  pub max_downloads : Option ℤ
  pub delete_explicit_content : Bool
  pub include_shorts : Bool
  pub include_livestreams : Bool
  pub title_exclude : Option Text
  pub updated_at : ℕ

-- The columns that describe the media only, such as its duration, are left out.
pub record Download : Type 0 where
  pub id : ℕ
  pub profile_id : String
  pub source_type : Text
  pub source_name : Text
  pub source_url : Option Text
  pub item_uid : Option Text
  pub item_id : Option Text
  pub item_url : Option Text
  pub media_url : Option Text
  pub title : Option Text
  pub file_path : Option Text
  pub file_ext : Option Text
  pub subtitle_path : Option Text
  pub subtitle_path_relative : Option Text
  pub download_status : Text
  pub played : Bool
  pub favorite : Bool
  pub played_at : Option ℕ
  pub last_seen_at : ℕ
