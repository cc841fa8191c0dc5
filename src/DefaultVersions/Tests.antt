-- ===== src/DefaultVersions/Tests.antt =====
-- Numbers in the order of the sums of their characters, which is enough for these.
use crates_io.Prelude.{
  ℕ, ◌+◌, ◌≡◌, refl, Text, codes, ltb, some, List, [], ◌∷◌, true, false, ok, arith, any, ◌==◌,
}
use crates_io.Publish.Tables.{DefaultVersionRow}
use crates_io.Publish.Labels.{DefaultVersion}
use crates_io.DefaultVersions.{
  SemverOrd, comes_before, calculate_default_version, update_default_version, up_to_date,
  verify_default_version,
}
use crates_io.DefaultVersions.Order.{IsDefault}
use crates_io.DefaultVersions.Choice.{Saved, update_default_version-IsDefault}

abbrev weight : Text → ℕ
weight [] = 0
weight (c ∷ s) = c + weight s

comparable : (a b c : ℕ) → ltb a b ≡ false → ltb b c ≡ false → ltb a c ≡ false
comparable a b c h k = ground (arith, h, k)

asymmetric : (a b : ℕ) → ltb a b ≡ true → ltb b a ≡ false
asymmetric a b h = ground (arith, h)

irreflexive : (a : ℕ) → ltb a a ≡ false
irreflexive a = ground arith

-- A hyphen marks a pre-release.
abbrev ord : SemverOrd
ord = record {
  is_prerelease = any (λ c. c == b'-');
  lower = λ a b. ltb (weight a) (weight b);
  irreflexive = λ a. irreflexive (weight a);
  comparable = λ a b c. comparable (weight a) (weight b) (weight c);
  asymmetric = λ a b. asymmetric (weight a) (weight b);
}

abbrev release : DefaultVersion
release = record { id = 1; num = codes "1.0.0"; yanked = true }

abbrev beta : DefaultVersion
beta = record { id = 2; num = codes "2.0.0-beta.1"; yanked = true }

-- Where every version is yanked, a release is preferred to a higher pre-release.
yanked_release : calculate_default_version ord (beta ∷ release ∷ []) ≡ some release
unfolding calculate_default_version comes_before
yanked_release = refl

update_default_version-IsDefault_example :
    (rows' : List DefaultVersionRow) × (best : DefaultVersion) × (update_default_version ord 7
        (beta ∷ release ∷ [])
        []
      ≡ ok rows')
    × IsDefault ord (beta ∷ release ∷ []) best
    × Saved 7 best.id rows'
    × (verify_default_version ord 7 (beta ∷ release ∷ []) rows' ≡ ok up_to_date)
update_default_version-IsDefault_example =
    update_default_version-IsDefault ord 7 beta (release ∷ []) []
