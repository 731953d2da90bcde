-- ===== src/Validation/Tests.antt =====
-- Runs of the validation.
use caaspay_core.Prelude.{◌≡◌, refl, codes, [], ◌∷◌, text_eq}
use caaspay_core.Prelude.Dict.{empty, put}
use caaspay_core.Validation.{FieldError, field_errors, field_text}

abbrev required : FieldError
required = record { field = codes "Name"; tag = codes "required"; param = [] }

abbrev too_long : FieldError
too_long = record { field = codes "Name"; tag = codes "max"; param = codes "8" }

-- The last error of a field stays.
last_error :
    field_errors (required ∷ too_long ∷ []) empty
    ≡ (codes "Name", codes "max validation failed on '8'") ∷ []
unfolding field_errors field_text put text_eq
last_error = refl
