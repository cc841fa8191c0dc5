-- ===== src/DefaultVersions/Choice.antt =====
-- Which version is the default.
use crates_io.Prelude.{
  ℕ, ◌≡◌, inl, inr, refl, ap, none, some, List, [], ◌∷◌, map, any, true, ◌==◌, ok, All-imp, arith,
  Bool-cases, ==_iff,
}
use crates_io.Publish.Tables.{DefaultVersionRow}
use crates_io.Publish.Labels.{DefaultVersion}
use crates_io.Publish.Store.{find_default, set_default}
use crates_io.DefaultVersions.{
  SemverOrd, first_of, calculate_default_version, put_default, update_default_version, up_to_date,
  compare_saved, verify_default_version,
}
use crates_io.DefaultVersions.Order.{IsDefault, calculate-FirstOf, not_before}

==-refl : (n : ℕ) → (n == n) ≡ true
==-refl n = (==_iff n n).1 refl

-- The crate's row names the version.
abbrev pub Saved : ℕ → ℕ → List DefaultVersionRow → Type 0
Saved crate_id id rows =
    (row : DefaultVersionRow) × (find_default crate_id rows ≡ some row) × (row.version_id ≡ id)

set_default-Saved :
    (crate_id id : ℕ) (rows : List DefaultVersionRow)
    → any (λ row. row.crate_id == crate_id) rows ≡ true
    → Saved crate_id id (map (set_default crate_id id) rows)
unfolding find_default
set_default-Saved crate_id id [] h = cc
set_default-Saved crate_id id (row ∷ rows) h = elim (Bool-cases (row.crate_id == crate_id)) [
  | inl e ↦ (record row { version_id = id }, rw (e, e) refl, refl)
  | inr e ↦
      let (found, at, same) = set_default-Saved crate_id id rows (ground (arith, h, e)) in
      (found, rw (e, e) at, same)
]

put_default-Saved :
    (crate_id id : ℕ) (rows : List DefaultVersionRow)
    → Saved crate_id id (put_default crate_id id rows)
unfolding find_default
put_default-Saved crate_id id rows =
    elim (Bool-cases (any (λ row. row.crate_id == crate_id) rows)) [
      | inl e ↦ rw e (set_default-Saved crate_id id rows e)
      | inr e ↦ rw e (
        record { crate_id = crate_id; version_id = id; num_versions = none },
        rw (==-refl crate_id) refl,
        refl,
      )
    ]

Saved-up_to_date :
    (crate_id id : ℕ) (rows : List DefaultVersionRow)
    → Saved crate_id id rows
    → compare_saved id (find_default crate_id rows) ≡ up_to_date
Saved-up_to_date crate_id id rows (row, found, same) =
    rw (found, (==_iff row.version_id id).1 same) refl

-- The update of a crate with at least one version succeeds and saves the best version, after which the
-- verification finds it up to date. The best is of the highest class there is, first neither
-- yanked nor a pre-release, then not yanked, then not a pre-release; in its class no version has
-- a higher number, and none that is level with it a higher id.
pub update_default_version-IsDefault :
    (ord : SemverOrd) (crate_id : ℕ) (v : DefaultVersion) (versions : List DefaultVersion)
    (rows : List DefaultVersionRow)
    → (rows' : List DefaultVersionRow) × (best : DefaultVersion) × (update_default_version ord
          crate_id
          (v ∷ versions)
          rows
        ≡ ok rows')
      × IsDefault ord (v ∷ versions) best
      × Saved crate_id best.id rows'
      × (verify_default_version ord crate_id (v ∷ versions) rows' ≡ ok up_to_date)
unfolding update_default_version verify_default_version calculate_default_version
update_default_version-IsDefault ord crate_id v versions rows =
    let best = first_of ord v (calculate_default_version ord versions) in
    let (found, first) = calculate-FirstOf ord (v ∷ versions) in
    let saved = put_default-Saved crate_id best.id rows in
    (
      put_default crate_id best.id rows,
      best,
      refl,
      (found, All-imp (λ w h. not_before ord best w h) (v ∷ versions) first),
      saved,
      ap ok (Saved-up_to_date crate_id best.id _ saved),
    )
