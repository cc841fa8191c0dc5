-- ===== src/Publish/Labels.antt =====
-- crates/crates_io_database/src/models/keyword.rs and category.rs: the keywords and categories that
-- a crate is given, and crates/crates_io_database/src/models/default_versions.rs: the order of a
-- crate's versions.
use crates_io.Prelude.{
  ℕ, suc, Text, List, [], ◌∷◌, ◌++◌, map, any, keep, Bool, true, false, not, ◌&&◌, ◌||◌, ◌==◌, ltb,
  if◌then◌else◌, text_eq,
}
use crates_io.Publish.Manifest.{Parsers}
use crates_io.Publish.Tables.{Tables, Label, Labelled}

abbrev pub is_label : Text → Label → Bool
is_label name row = text_eq row.label name

-- The insertion of `Keyword::find_or_create_all`, one name after another, with the next id.
unfoldable pub insert_keywords : List Text → ℕ → List Label → ℕ × List Label
unfolding text_eq
insert_keywords [] next rows = (next, rows)
insert_keywords (name ∷ names) next rows =
    if any (is_label name) rows
    then insert_keywords names next rows
    else insert_keywords names (suc next) (record { id = next; label = name } ∷ rows)

abbrev pub is_one_of : List Text → Label → Bool
is_one_of names row = any (text_eq row.label) names

abbrev pub of_crate : ℕ → Labelled → Bool
of_crate crate_id row = row.0 == crate_id

-- The rows of a crate replaced by one for each label.
abbrev pub relabel : ℕ → List Label → List Labelled → List Labelled
relabel crate_id labels rows =
    map (λ row. (crate_id, row.id)) labels ++ keep (λ row. not (of_crate crate_id row)) rows

-- `Keyword::update_crate`
unfoldable pub update_keywords : (Text → Text) → ℕ → List Text → Tables → Tables
unfolding insert_keywords text_eq
update_keywords to_lowercase crate_id names s =
    let lowercase_names = map to_lowercase names in
    let (next, rows) = insert_keywords lowercase_names s.next_keyword_id s.keywords in
    record s {
      next_keyword_id = next;
      keywords = rows;
      crates_keywords = relabel crate_id (keep (is_one_of lowercase_names) rows) s.crates_keywords;
    }

-- `Category::update_crate`: the slugs that there are no categories for, and the tables.
unfoldable pub update_categories : ℕ → List Text → Tables → List Text × Tables
unfolding text_eq
update_categories crate_id slugs s =
    let found = keep (is_one_of slugs) s.categories in
    (
      keep (λ slug. not (any (is_label slug) found)) slugs,
      record s { crates_categories = relabel crate_id found s.crates_categories },
    )

-- `default_versions::Version`; the number is the text of the semantic version.
pub record DefaultVersion : Type 0 where
  pub id : ℕ
  pub num : Text
  pub yanked : Bool

abbrev pub flag_lt : Bool → Bool → Bool
flag_lt a b = not a && b

abbrev pub flag_eq : Bool → Bool → Bool
flag_eq true b = b
flag_eq false b = not b

-- One part of a tuple's order before the others.
abbrev pub lex : Bool → Bool → Bool → Bool
lex less equal rest = less || equal && rest

-- `<` by `Ord::cmp`: the order of `ord_tuple`.
unfoldable pub version_lt : Parsers → DefaultVersion → DefaultVersion → Bool
unfolding text_eq
version_lt parsers a b =
    lex (flag_lt (not a.yanked) (not b.yanked)) (flag_eq (not a.yanked) (not b.yanked)) (
      lex (flag_lt (not (parsers.is_prerelease a.num)) (not (parsers.is_prerelease b.num)))
        (flag_eq (not (parsers.is_prerelease a.num)) (not (parsers.is_prerelease b.num)))
        (lex (parsers.version_lt a.num b.num) (text_eq a.num b.num) (ltb a.id b.id)))
