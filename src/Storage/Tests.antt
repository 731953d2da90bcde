-- ===== src/Storage/Tests.antt =====
-- The theorem about the store at a concrete session.
use caaspay_core.Prelude.{ℕ, ◌≡◌, ok, List, [], ◌∷◌, codes, text_eq}
use caaspay_core.Prelude.Dict.{empty}
use caaspay_core.Storage.{load, found}
use caaspay_core.Storage.Sessions.{Write, setting, deleting, stored, load-stored}

abbrev session : List (Write ℕ)
session = deleting (codes "b") ∷ setting (codes "a") 2 ∷ setting (codes "a") 1 ∷ []

load-stored_example : load (codes "a") (stored session empty) ≡ ok 2
unfolding text_eq found
load-stored_example = load-stored (codes "a") session empty
