-- ===== src/Domain/Tests.antt =====
-- The theorem on `parse_str_enum` at a small input.
use getoffline.Base.{◌≡◌, refl, some, codes, str, str_or_empty, strip, lower, text_eq}
use getoffline.Domain.{download_single, job_types, parse_str_enum}

parsed : parse_str_enum job_types (str (codes " Download_Single ")) ≡ some download_single
unfolding parse_str_enum str_or_empty strip lower text_eq
parsed = refl
