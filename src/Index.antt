-- ===== src/Index.antt =====
-- crates/crates_io_index/features.rs: the features of a version, split in two for the index: those that
-- old versions of cargo understand, and those with the newer syntax or that depend on such a one.
-- A map is the list of its entries; the order that a map keeps them in is left out.
pub mod Closed
mod Tests
use crates_io.Prelude.{
  ℕ, zero, suc, Text, List, [], ◌∷◌, ◌++◌, keep, any, Bool, not, ◌||◌, if◌then◌else◌, codes,
  is_empty, starts_with, contains_text, text_eq,
}

-- A name and its values.
abbrev pub Feature : Type 0
Feature = Text × List Text

abbrev pub FeaturesMap : Type 0
FeaturesMap = List Feature

-- `has_features2_syntax`
unfoldable pub has_features2_syntax : Text → Bool
unfolding starts_with contains_text
has_features2_syntax s = starts_with (codes "dep:") s || contains_text (codes "?/") s

abbrev pub contains_key : FeaturesMap → Text → Bool
contains_key features key = any (λ f. text_eq f.0 key) features

abbrev pub uses_syntax : Feature → Bool
uses_syntax f = any has_features2_syntax f.1

abbrev pub depends_on : FeaturesMap → Feature → Bool
depends_on features2 f = any (contains_key features2) f.1

-- The loop, with the number of iterations that are left.
unfoldable pub split_loop : ℕ → FeaturesMap → FeaturesMap → FeaturesMap × FeaturesMap
unfolding text_eq
split_loop zero features features2 = (features, features2)
split_loop (suc n) features features2 =
    let kept = keep (λ f. not (depends_on features2 f)) features in
    let moved = keep (depends_on features2) features in
    let rest = split_loop n kept (features2 ++ moved) in
    if is_empty moved then (kept, features2) else rest

abbrev pub iteration_limit : ℕ
iteration_limit = 100

-- `split_features`
unfoldable pub split_features : FeaturesMap → FeaturesMap × FeaturesMap
unfolding split_loop has_features2_syntax
split_features features =
    split_loop iteration_limit (keep (λ f. not (uses_syntax f)) features)
      (keep uses_syntax features)
