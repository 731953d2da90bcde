-- ===== src/Storage/Sessions.antt =====
-- A store after any session of writes and deletions holds what was written last.
use caaspay_core.Prelude.{
  ◌≡◌, refl, ap, ◌∙◌, Option, none, some, Option-cases, inl, inr, Text, text_eq, text_eq_iff, List,
  [], ◌∷◌, arith, if◌then◌else◌,
}
use caaspay_core.Prelude.Dict.{Dict, get, get-put, get-erase}
use caaspay_core.Storage.{load, found, set, delete, delete_found}

-- A write of a value, or a deletion.
pub data Write (V : Type 0) : Type 0 where
  setting : Text → V → Write V
  deleting : Text → Write V

module _ {V : Type 0} where
  -- The store after the writes, the newest first.
  pub stored : List (Write V) → Dict V → Dict V
  stored [] s = s
  stored (setting key value ∷ ws) s = set key value (stored ws s)
  stored (deleting key ∷ ws) s = (delete key (stored ws s)).1

  -- What the newest write to the key left.
  abbrev pub last_value : Text → List (Write V) → Option V → Option V
  last_value key [] before = before
  last_value key (setting k value ∷ ws) before =
      let rest = last_value key ws before in if text_eq k key then some value else rest
  last_value key (deleting k ∷ ws) before =
      let rest = last_value key ws before in if text_eq k key then none else rest

  get-delete :
      (k key : Text) (s : Dict V)
      → get key (delete k s).1 ≡ (if text_eq k key then none else get key s)
  unfolding delete delete_found
  get-delete k key s = elim (Option-cases (get k s)) [
    | inl p ↦ rw (delete, p) (ground (arith, p, text_eq_iff k key))
    | inr (v, p) ↦ rw (delete, p) (get-erase k key s)
  ]

  stored_lem :
      (key : Text) (ws : List (Write V)) (s : Dict V)
      → get key (stored ws s) ≡ last_value key ws (get key s)
  unfolding stored set
  stored_lem key [] s = refl
  stored_lem key (setting k value ∷ ws) s =
      get-put k key value (stored ws s)
      ∙ ap (λ o. if text_eq k key then some value else o) (stored_lem key ws s)
  stored_lem key (deleting k ∷ ws) s =
      get-delete k key (stored ws s)
      ∙ ap (λ o. if text_eq k key then none else o) (stored_lem key ws s)

  -- `Get` after any session of writes gives what the newest write to the key stored, or what was
  -- there before the session, and an error if that write was a deletion or there is none.
  pub load-stored :
      (key : Text) (ws : List (Write V)) (s : Dict V)
      → load key (stored ws s) ≡ found (last_value key ws (get key s))
  unfolding load
  load-stored key ws s = ap found (stored_lem key ws s)
