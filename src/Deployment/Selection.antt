-- ===== src/Deployment/Selection.antt =====
-- Which services the filters keep.
use caaspay_core.Prelude.{
  ◌≡◌, ◌↔◌, ◌⊎◌, refl, ap, ◌∙◌, inl, inr, Bool, true, false, ◌||◌, Bool-cases, Text, List, [], ◌∷◌,
  ◌++◌, arith, is_empty, contains, has_prefix, ◌==◌, ==_iff,
}
use caaspay_core.Naming.{split}
use caaspay_core.Deployment.{
  ServiceData, Filters, trim_space, matches_one, matches_filter, is_kept, filter_services,
}

-- The text stands somewhere in the name.
pub record Occurs (part name : Text) : Type 0 where
  pub before : Text
  pub after : Text
  pub whole : name ≡ before ++ (part ++ after)

has_prefix-whole : (s p : Text) → has_prefix s p ≡ true → (after : Text) × (s ≡ p ++ after)
unfolding has_prefix
has_prefix-whole s [] h = (s, refl)
has_prefix-whole [] (_ ∷ _) h = absurd (ground (arith, h))
has_prefix-whole (x ∷ s) (y ∷ p) h = elim (Bool-cases (x == y)) [
  | inl same ↦
      let (after, whole) = has_prefix-whole s p (ground (arith, h, same)) in
      (after, ap (λ c. c ∷ s) ((==_iff x y).0 same) ∙ ap (λ t. y ∷ t) whole)
  | inr differs ↦ absurd (ground (arith, h, differs))
]

has_prefix-append : (p after : Text) → has_prefix (p ++ after) p ≡ true
unfolding has_prefix
has_prefix-append [] after = refl
has_prefix-append (x ∷ p) after = rw ((==_iff x x).1 refl) (has_prefix-append p after)

contains-Occurs : (s part : Text) → contains s part ≡ true → Occurs part s
unfolding contains
contains-Occurs [] part h =
    let (after, whole) = has_prefix-whole [] part h in
    record { before = []; after = after; whole = whole }
contains-Occurs (c ∷ s) part h = elim (Bool-cases (has_prefix (c ∷ s) part)) [
  | inl here ↦
      let (after, whole) = has_prefix-whole (c ∷ s) part here in
      record { before = []; after = after; whole = whole }
  | inr later ↦
      let o = contains-Occurs s part (ground (arith, h, later)) in
      record { before = c ∷ o.before; after = o.after; whole = ap (λ t. c ∷ t) o.whole }
]

contains-append : (before part after : Text) → contains (before ++ (part ++ after)) part ≡ true
unfolding contains
contains-append [] [] [] = refl
contains-append [] [] (_ ∷ _) = refl
contains-append [] (x ∷ part) after = rw (has_prefix-append (x ∷ part) after) refl
contains-append (c ∷ before) part after = ground (
  arith,
  contains-append before part after,
  Bool-cases (has_prefix (c ∷ (before ++ (part ++ after))) part),
)

Occurs-contains : (s part : Text) → Occurs part s → contains s part ≡ true
Occurs-contains s part o = rw (o.whole) (contains-append o.before part o.after)

-- One of the parts occurs in the name, without the spaces around it.
abbrev pub OneOccurs : (name : Text) → List Text → Type 0
OneOccurs name [] = ⊥
OneOccurs name (part ∷ parts) = Occurs (trim_space part) name ⊎ OneOccurs name parts

-- A filter hits a name if it is not empty and one of its comma-separated parts occurs in the name.
pub record Hits (filter name : Text) : Type 0 where
  pub given : is_empty filter ≡ false
  pub found : OneOccurs name (split b',' filter)

matches_one_iff :
    (name : Text) (parts : List Text) → (matches_one name parts ≡ true) ↔ OneOccurs name parts
unfolding matches_one
matches_one_iff name [] = ground arith
matches_one_iff name (part ∷ parts) =
    let (there, back) = matches_one_iff name parts in
    (
      λ h. elim (Bool-cases (contains name (trim_space part))) [
        | inl hit ↦ inl (contains-Occurs name (trim_space part) hit)
        | inr miss ↦ inr (there (ground (arith, h, miss)))
      ],
      λ o. elim o [
        | inl hit ↦ rw (Occurs-contains name (trim_space part) hit) refl
        | inr later ↦ ground (arith, back later, Bool-cases (contains name (trim_space part)))
      ],
    )

matches_filter_iff : (name filter : Text) → (matches_filter name filter ≡ true) ↔ Hits filter name
unfolding matches_filter
matches_filter_iff name filter =
    let (there, back) = matches_one_iff name (split b',' filter) in
    elim (Bool-cases (is_empty filter)) [
      | inl blank ↦
          (λ h. absurd (ground (arith, h, blank)), λ o. absurd (ground (arith, o.given, blank)))
      | inr given ↦ (
        λ h. record { given = given; found = there (ground (arith, h, given)) },
        λ o. rw given (back o.found),
      )
    ]

-- No exclusion hits the name, and each inclusion that is given does.
pub record Wanted (f : Filters) (name : Text) : Type 0 where
  pub no_system : Hits f.exclude_system name → ⊥
  pub no_type : Hits f.exclude_type name → ⊥
  pub no_service : Hits f.exclude_service name → ⊥
  pub in_system : is_empty f.include_system ≡ false → Hits f.include_system name
  pub in_type : is_empty f.include_type ≡ false → Hits f.include_type name
  pub in_service : is_empty f.include_service ≡ false → Hits f.include_service name

-- One exclusion and one inclusion.
spared : (name filter : Text) → (Hits filter name → ⊥) → matches_filter name filter ≡ false
spared name filter h = elim (Bool-cases (matches_filter name filter)) [
  | inl hit ↦ absurd (h ((matches_filter_iff name filter).0 hit))
  | inr miss ↦ miss
]

abbrev allows : (name filter : Text) → Bool
allows name filter = is_empty filter || matches_filter name filter

allowed :
    (name filter : Text) → (is_empty filter ≡ false → Hits filter name) → allows name filter ≡ true
allowed name filter h = elim (Bool-cases (is_empty filter)) [
  | inl blank ↦ rw blank refl
  | inr given ↦ rw (given, (matches_filter_iff name filter).1 (h given)) refl
]

allows-Hits :
    (name filter : Text) → allows name filter ≡ true → is_empty filter ≡ false → Hits filter name
allows-Hits name filter h given = (matches_filter_iff name filter).0 (ground (arith, h, given))

excluded-Hits : (name filter : Text) → matches_filter name filter ≡ false → Hits filter name → ⊥
excluded-Hits name filter h hit = ground (arith, h, (matches_filter_iff name filter).1 hit)

kept-Wanted : (f : Filters) (name : Text) → is_kept f name ≡ true → Wanted f name
kept-Wanted f name h = record {
  no_system = excluded-Hits name f.exclude_system (ground (arith, h));
  no_type = excluded-Hits name f.exclude_type (ground (arith, h));
  no_service = excluded-Hits name f.exclude_service (ground (arith, h));
  in_system = allows-Hits name f.include_system (ground (arith, h));
  in_type = allows-Hits name f.include_type (ground (arith, h));
  in_service = allows-Hits name f.include_service (ground (arith, h));
}

Wanted-kept : (f : Filters) (name : Text) → Wanted f name → is_kept f name ≡ true
Wanted-kept f name w =
    rw
      (
        spared name f.exclude_system w.no_system,
        spared name f.exclude_type w.no_type,
        spared name f.exclude_service w.no_service,
        allowed name f.include_system w.in_system,
        allowed name f.include_type w.in_type,
        allowed name f.include_service w.in_service,
      )
      refl

-- The second list is what is wanted of the first, in its order.
pub data Selects {V : Type 0} (f : Filters)
    : List (ServiceData V) → List (ServiceData V) → Type 0 where
  selects_none : Selects f [] []
  takes :
      (s : ServiceData V) {ss ts : List (ServiceData V)}
      → Wanted f s.name
      → Selects f ss ts
      → Selects f (s ∷ ss) (s ∷ ts)
  passes :
      (s : ServiceData V) {ss ts : List (ServiceData V)}
      → (Wanted f s.name → ⊥)
      → Selects f ss ts
      → Selects f (s ∷ ss) ts

-- The services that the filters keep are, in their order, exactly those whose name no exclusion hits
-- and each inclusion that is given hits. A filter hits a name if one of its comma-separated parts,
-- without the spaces around it, occurs in the name.
pub filter_services-Selects :
    {V : Type 0} (f : Filters) (services : List (ServiceData V))
    → Selects f services (filter_services f services)
unfolding filter_services
filter_services-Selects f [] = selects_none
filter_services-Selects f (s ∷ services) = elim (Bool-cases (is_kept f s.name)) [
  | inl kept ↦ rw kept (takes s (kept-Wanted f s.name kept) (filter_services-Selects f services))
  | inr left ↦ rw left (
      passes s (λ w. ground (arith, left, Wanted-kept f s.name w))
        (filter_services-Selects f services))
]
