-- ===== src/Validation.antt =====
-- base/microservice/pkg/common/validation/validator.go: ValidateStruct. The package
-- go-playground/validator is a parameter, as is the text that fmt makes of a map.
mod Tests
use caaspay_core.Prelude.{Option, none, some, Text, codes, List, [], ◌∷◌, ◌++◌, Error, errorf}
use caaspay_core.Prelude.Dict.{Dict, empty, put}

pub record FieldError : Type 0 where
  pub field : Text
  pub tag : Text
  pub param : Text

-- An error of the package: validator.ValidationErrors, or another.
pub data Invalid : Type 0 where
  validation_errors : List FieldError → Invalid
  other_error : Error → Invalid

unfoldable pub field_text : FieldError → Text
field_text e = e.tag ++ (codes " validation failed on '" ++ (e.param ++ codes "'"))

-- One text for each field: a later error takes the place of an earlier one.
unfoldable pub field_errors : List FieldError → Dict Text → Dict Text
unfolding field_text
field_errors [] errors = errors
field_errors (e ∷ es) errors = field_errors es (put e.field (field_text e) errors)

module _ {A : Type 0} (struct : A → Option Invalid) (show : Dict Text → Text) where
  unfoldable pub explained : Option Invalid → Option Error
  unfolding field_errors
  explained none = none
  explained (some (validation_errors es)) =
      some (errorf (codes "validation errors: " ++ show (field_errors es empty)))
  explained (some (other_error x)) = some x

  unfoldable pub validate_struct : A → Option Error
  unfolding explained
  validate_struct s = explained (struct s)
