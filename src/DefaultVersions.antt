-- ===== src/DefaultVersions.antt =====
-- crates/crates_io_database/src/models/default_versions.rs: which version of a crate is shown. The
-- database's order of version numbers, the column `semver_ord`, is a parameter with the laws of an
-- order; the log of `verify_default_version` is its answer here.
pub mod Order
pub mod Choice
mod Tests
use crates_io.Prelude.{
  ℕ, Text, Option, none, some, List, [], ◌∷◌, map, any, Bool, true, false, not, ◌&&◌, ◌||◌, ◌==◌,
  ltb, if◌then◌else◌, ◌≡◌, Result, ok, err,
}
use crates_io.Errors.{AppResult, not_found}
use crates_io.Publish.Tables.{DefaultVersionRow}
use crates_io.Publish.Labels.{DefaultVersion, flag_lt, flag_eq, lex}
use crates_io.Publish.Store.{find_default, set_default}

-- The order of `semver_ord`, in which numbers that differ only in build metadata are level.
pub record SemverOrd : Type 0 where
  pub is_prerelease : Text → Bool
  pub lower : Text → Text → Bool
  pub irreflexive : (a : Text) → lower a a ≡ false
  pub comparable : (a b c : Text) → lower a b ≡ false → lower b c ≡ false → lower a c ≡ false
  pub asymmetric : (a b : Text) → lower a b ≡ true → lower b a ≡ false

-- The insertion, with `ON CONFLICT … DO UPDATE`.
abbrev pub put_default : ℕ → ℕ → List DefaultVersionRow → List DefaultVersionRow
put_default crate_id version_id rows =
    if any (λ row. row.crate_id == crate_id) rows
    then map (set_default crate_id version_id) rows
    else record { crate_id = crate_id; version_id = version_id; num_versions = none } ∷ rows

abbrev pub put_if :
    ℕ → Option DefaultVersion → List DefaultVersionRow → AppResult (List DefaultVersionRow)
put_if crate_id none rows = err not_found
put_if crate_id (some v) rows = ok (put_default crate_id v.id rows)

-- What `verify_default_version` finds: the saved version, or that it is outdated or missing.
pub data Verdict : Type 0 where
  up_to_date outdated missing : Verdict

abbrev pub compare_saved : ℕ → Option DefaultVersionRow → Verdict
compare_saved id none = missing
compare_saved id (some row) = if row.version_id == id then up_to_date else outdated

abbrev pub verify_against : ℕ → Option DefaultVersion → List DefaultVersionRow → AppResult Verdict
verify_against crate_id none rows = err not_found
verify_against crate_id (some v) rows = ok (compare_saved v.id (find_default crate_id rows))

module _ (ord : SemverOrd) where
  abbrev pub same_number : Text → Text → Bool
  same_number a b = not (ord.lower a b) && not (ord.lower b a)

  -- The order of the query: not yanked, no pre-release, the higher number, the higher id.
  unfoldable pub comes_before : DefaultVersion → DefaultVersion → Bool
  comes_before a b = lex (flag_lt a.yanked b.yanked) (flag_eq a.yanked b.yanked) (
      lex (flag_lt (ord.is_prerelease a.num) (ord.is_prerelease b.num))
        (flag_eq (ord.is_prerelease a.num) (ord.is_prerelease b.num))
        (lex (ord.lower b.num a.num) (same_number a.num b.num) (ltb b.id a.id)))

  abbrev pub first_of : DefaultVersion → Option DefaultVersion → DefaultVersion
  first_of v none = v
  first_of v (some best) = if comes_before best v then best else v

  -- `calculate_default_version`, on the versions of a crate.
  unfoldable pub calculate_default_version : List DefaultVersion → Option DefaultVersion
  unfolding comes_before
  calculate_default_version [] = none
  calculate_default_version (v ∷ versions) = some (first_of v (calculate_default_version versions))

  -- `update_default_version`
  unfoldable pub update_default_version :
      ℕ → List DefaultVersion → List DefaultVersionRow → AppResult (List DefaultVersionRow)
  unfolding calculate_default_version
  update_default_version crate_id versions rows =
      put_if crate_id (calculate_default_version versions) rows

  -- `verify_default_version`
  unfoldable pub verify_default_version :
      ℕ → List DefaultVersion → List DefaultVersionRow → AppResult Verdict
  unfolding find_default
  verify_default_version crate_id versions rows =
      verify_against crate_id (calculate_default_version versions) rows
