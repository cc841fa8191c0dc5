-- ===== src/Index/Tests.antt =====
-- The nested features of the source's tests.
use crates_io.Prelude.{◌≡◌, ◌≤◌, refl, codes, [], ◌∷◌, length, keep, not, arith}
use crates_io.Index.{Feature, FeaturesMap, has_features2_syntax, uses_syntax, split_features}
use crates_io.Index.Closed.{Closed, split_features-Closed}

abbrev feature1 : Feature
feature1 = (codes "feature1", codes "feature2" ∷ [])

abbrev feature2 : Feature
feature2 = (codes "feature2", codes "feature3" ∷ [])

abbrev feature3 : Feature
feature3 = (codes "feature3", codes "dep:foo" ∷ [])

abbrev weak : Feature
weak = (codes "feature3", codes "val4" ∷ codes "val5?/val6" ∷ [])

abbrev plain : Feature
plain = (codes "feature4", codes "val1" ∷ [])

abbrev nested : FeaturesMap
nested = feature1 ∷ feature2 ∷ feature3 ∷ plain ∷ []

split_nested : split_features nested ≡ (plain ∷ [], feature3 ∷ feature2 ∷ feature1 ∷ [])
unfolding split_features
split_nested = refl

split_weak : split_features (plain ∷ weak ∷ []) ≡ (plain ∷ [], weak ∷ [])
unfolding split_features
split_weak = refl

few : length (keep (λ f. not (uses_syntax f)) nested) ≤ 100
unfolding has_features2_syntax
few = omega arith

split_features-Closed_example : Closed nested 4 (split_features nested)
split_features-Closed_example = split_features-Closed nested few
