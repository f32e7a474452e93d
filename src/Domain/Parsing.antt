-- ===== src/Domain/Parsing.antt =====
-- What `parse_str_enum` accepts.
use mathlib.Core.Option.{some}
use getoffline.Base.{
  ◌≡◌, refl, String, List, [], ◌∷◌, arith, Text, codes, text_eq, text_eq→eq, strip, lower, Value,
  str, str_or_empty,
}
use getoffline.Domain.{
  StrEnum, member_of, parse_str_enum, HeavyJobKind, heavy_job_kinds, heavy_job_kind_value, JobType,
  job_types, job_type_value,
}

member_of_sound :
    {E : Type 0} (value : E → String) (ms : List E) (t : Text) (m : E)
    → member_of value ms t ≡ some m
    → codes (value m) ≡ t
unfolding member_of
member_of_sound value [] t m h = cc
member_of_sound value (k ∷ ms) t m h =
    ground (arith, text_eq→eq (codes (value k)) t, member_of_sound value ms t m)

-- A member that is found is the one whose value is the text of the argument, stripped and in lower
-- case.
pub parse_str_enum_sound :
    {E : Type 0} (enum_type : StrEnum E) (v : Value) (m : E)
    → parse_str_enum enum_type v ≡ some m
    → codes (enum_type.value m) ≡ lower (strip (str_or_empty v))
unfolding parse_str_enum
parse_str_enum_sound enum_type v m h = member_of_sound enum_type.value enum_type.members _ m h

pub job_type_roundtrip :
    (t : JobType) → parse_str_enum job_types (str (codes (job_type_value t))) ≡ some t
unfolding parse_str_enum str_or_empty strip lower text_eq
job_type_roundtrip JobType.check_for_episodes = refl
job_type_roundtrip _ = refl

pub heavy_job_kind_roundtrip :
    (k : HeavyJobKind)
    → parse_str_enum heavy_job_kinds (str (codes (heavy_job_kind_value k))) ≡ some k
unfolding parse_str_enum str_or_empty strip lower text_eq
heavy_job_kind_roundtrip HeavyJobKind.ffmpeg = refl
heavy_job_kind_roundtrip _ = refl
