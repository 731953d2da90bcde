-- ===== src/Naming/Parts.antt =====
-- `split` against the text that it cuts, and colons against lower case.
use caaspay_core.Prelude.{
  ℕ, suc, ◌≡◌, ◌≢◌, refl, false, List, [], ◌∷◌, ◌++◌, arith, Text, ◌==◌, Lacks, length, lower,
  to_lower, if◌then◌else◌,
}
use caaspay_core.Naming.{colon, has_colon, push_first, split}

-- How often a character stands in a text.
abbrev pub count : ℕ → Text → ℕ
count b [] = 0
count b (c ∷ s) = let rest = count b s in if c == b then suc rest else rest

length-push_first :
    (c n : ℕ) (ps : List Text) → length ps ≡ suc n → length (push_first c ps) ≡ suc n
unfolding push_first
length-push_first c n [] h = cc
length-push_first c n (p ∷ ps) h = h

pub length-split : (sep : ℕ) (s : Text) → length (split sep s) ≡ suc (count sep s)
unfolding split
length-split sep [] = refl
length-split sep (c ∷ s) =
    ground (arith, length-split sep s, length-push_first c (count sep s) (split sep s))

-- A text without the separator is one part.
pub split-Lacks : (sep : ℕ) (p : Text) → Lacks sep p → split sep p ≡ p ∷ []
unfolding split push_first
split-Lacks sep [] h = refl
split-Lacks sep (c ∷ p) h = ground (arith, split-Lacks sep p)

-- A first part without the separator is cut off at the separator behind it.
pub split-append :
    (sep : ℕ) (p rest : Text) → Lacks sep p → split sep (p ++ sep ∷ rest) ≡ p ∷ split sep rest
unfolding split push_first
split-append sep [] rest h = ground arith
split-append sep (c ∷ p) rest h = ground (arith, split-append sep p rest)

lower-ne-colon : (c : ℕ) → c ≢ colon → lower c ≢ colon
unfolding lower
lower-ne-colon c h = ground arith

pub to_lower-Lacks : (s : Text) → Lacks colon s → Lacks colon (to_lower s)
unfolding to_lower
to_lower-Lacks [] h = tt
to_lower-Lacks (c ∷ s) h = (lower-ne-colon c h.0, to_lower-Lacks s h.1)

lower_idem : (c : ℕ) → lower (lower c) ≡ lower c
unfolding lower
lower_idem c = ground arith

pub to_lower_idem : (s : Text) → to_lower (to_lower s) ≡ to_lower s
unfolding to_lower
to_lower_idem [] = refl
to_lower_idem (c ∷ s) = cc (lower_idem c, to_lower_idem s)

pub has_colon-Lacks : (s : Text) → has_colon s ≡ false → Lacks colon s
unfolding has_colon
has_colon-Lacks [] h = tt
has_colon-Lacks (c ∷ s) h = ground (arith, has_colon-Lacks s)
