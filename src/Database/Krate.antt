-- ===== src/Database/Krate.antt =====
-- crates/crates_io_database/src/models/krate.rs: the columns of `crates`, without its times, and the
-- lookup by name. `lower` is the database's function of that name.
use crates_io.Prelude.{
  ℕ, ℤ, Bool, Text, Option, none, some, List, [], ◌∷◌, map, ◌==◌, if◌then◌else◌, text_eq,
}

pub record Crate : Type 0 where
  pub id : ℕ
  pub name : Text
  pub description : Option Text
  pub homepage : Option Text
  pub documentation : Option Text
  pub readme : Option Text
  pub repository : Option Text
  pub max_upload_size : Option ℤ
  pub max_features : Option ℤ
  pub trustpub_only : Bool

-- `canon_crate_name` of the database: lower case, with `_` for `-`.
abbrev pub underscore : ℕ → ℕ
underscore c = if c == b'-' then b'_' else c

unfoldable pub canon_crate_name : (Text → Text) → Text → Text
canon_crate_name lower name = map underscore (lower name)

-- `Crate::by_name`, its first row.
unfoldable pub by_name : (Text → Text) → List Crate → Text → Option Crate
unfolding canon_crate_name text_eq
by_name lower [] name = none
by_name lower (krate ∷ crates) name =
    if text_eq (canon_crate_name lower krate.name) (canon_crate_name lower name)
    then some krate
    else by_name lower crates name
