-- ===== src/Publish/Rows.antt =====
-- The single writes of a publish request: crates and versions of crates/crates_io_database/src/models
-- (krate.rs, version.rs, default_versions.rs), and the dependencies of
-- src/controllers/krate/publish.rs.
use crates_io.Prelude.{
  ℕ, suc, Text, Option, none, some, List, [], ◌∷◌, ◌++◌, map, any, Bool, false, ◌&&◌, ◌||◌, ◌==◌,
  if◌then◌else◌, text_eq, ok, err, ◌>>=◌, ◌>>◌, split_once, is_some,
}
use crates_io.Errors.{AppResult, bad_request, custom, not_found}
use crates_io.Database.Krate.{Crate, canon_crate_name, by_name}
use crates_io.Database.Owners.{user_kind, owners, insert}
use crates_io.Auth
use crates_io.Rights.{Rights, publish, get, lt_rights}
use crates_io.Yank.{Version}
use crates_io.Publish.Dependencies.{EncodableCrateDependency, DependencyKind, normal}
use crates_io.Publish.Tables.{
  Tables, App, DependencyRow, DefaultVersionRow, AuthType, regular, trust_pub,
}

-- The columns of a crate that a publish request sets; the limits of a new crate are null.
pub record NewCrate : Type 0 where
  pub name : Text
  pub description : Option Text
  pub homepage : Option Text
  pub documentation : Option Text
  pub readme : Option Text
  pub repository : Option Text

abbrev pub set_crates : List Crate → Tables → Tables
set_crates crates s = record s {
  registry = record s.registry { rows = record s.registry.rows { crates = crates } };
}

abbrev pub set_columns : NewCrate → Crate → Crate
set_columns new krate = record krate {
  description = new.description;
  homepage = new.homepage;
  documentation = new.documentation;
  readme = new.readme;
  repository = new.repository;
}

abbrev pub has_name : (Text → Text) → Text → Crate → Bool
has_name lower name krate =
    text_eq (canon_crate_name lower krate.name) (canon_crate_name lower name)

abbrev pub set_columns_if : (Text → Text) → NewCrate → Crate → Crate
set_columns_if lower new krate =
    if has_name lower new.name krate then set_columns new krate else krate

abbrev pub updated : Option Crate → Tables → AppResult (Crate × Tables)
updated none s = err not_found
updated (some krate) s = ok (krate, s)

-- `NewCrate::update`
unfoldable pub update : (Text → Text) → NewCrate → Tables → AppResult (Crate × Tables)
unfolding by_name canon_crate_name text_eq
update lower new s =
    let crates = map (set_columns_if lower new) s.registry.rows.crates in
    updated (by_name lower crates new.name) (set_crates crates s)

abbrev pub new_row : NewCrate → ℕ → Crate
new_row new id = record {
  id = id;
  name = new.name;
  description = new.description;
  homepage = new.homepage;
  documentation = new.documentation;
  readme = new.readme;
  repository = new.repository;
  max_upload_size = none;
  max_features = none;
  trustpub_only = false;
}

abbrev pub insert_crate : Crate → ℕ → Tables → Tables
insert_crate krate user_id s = record s {
  registry = record s.registry {
    rows = record s.registry.rows {
      crates = krate ∷ s.registry.rows.crates;
      crate_owners =
          insert
            (record {
              crate_id = krate.id;
              owner_id = user_id;
              created_by = user_id;
              owner_kind = user_kind;
              deleted = false;
            })
            s.registry.rows.crate_owners;
    };
  };
  next_crate_id = suc krate.id;
}

-- `NewCrate::create`; there is no new row where the name's canonical form is taken.
unfoldable pub create : (Text → Text) → NewCrate → ℕ → Tables → Option (Crate × Tables)
unfolding by_name insert
create lower new user_id s =
    if is_some (by_name lower s.registry.rows.crates new.name)
    then none
    else (let krate = new_row new s.next_crate_id in some (krate, insert_crate krate user_id s))

abbrev pub created_or :
    Option (Crate × Tables) → AppResult (Crate × Tables) → AppResult (Crate × Tables)
created_or none updated = updated
created_or (some created) updated = ok created

abbrev pub ensure_may_publish : Rights → AppResult (Unit {0})
ensure_may_publish rights =
    if lt_rights rights publish
    then err (
        custom 403
          "this crate exists but you don't seem to be an owner. If you believe this is a mistake, perhaps you need to accept an invitation to be an owner before publishing."
          [])
    else ok tt

-- The crate that is published to: a user may create it and needs the right to publish.
unfoldable pub persist_crate : App → AuthType → NewCrate → Tables → AppResult (Crate × Tables)
unfolding update create get owners
persist_crate app (trust_pub data_) new s = update app.server.lower new s
persist_crate app (regular auth) new s = do
  (krate, s') ←
      created_or (create app.server.lower new (Auth.user auth).id s) (update app.server.lower new s)
  rights ← get app.server.decrypt app.server.github (Auth.user auth) (
      owners s'.registry.rows.conn.users s'.registry.rows.teams s'.registry.rows.crate_owners
        krate.id)
  ensure_may_publish rights
  ok (krate, s')

-- `strip_build_metadata`
abbrev pub before : Text → Option (Text × Text) → Text
before version none = version
before version (some (num, build)) = num

unfoldable pub strip_build_metadata : Text → Text
unfolding split_once
strip_build_metadata version = before version (split_once b'+' version)

abbrev pub is_version_of : ℕ → Text → Text → Version → Bool
is_version_of crate_id num num_no_build v =
    v.crate_id == crate_id && (text_eq v.num num || text_eq v.num_no_build num_no_build)

abbrev pub count_one : ℕ → DefaultVersionRow → DefaultVersionRow
count_one crate_id row = elim row.num_versions [
  | none ↦ row
  | some n ↦ if row.crate_id == crate_id then record row { num_versions = some (suc n) } else row
]

-- The trigger `update_num_versions_from_versions` on an inserted version.
unfoldable pub count_version : ℕ → ℕ → List DefaultVersionRow → List DefaultVersionRow
count_version crate_id version_id rows =
    if any (λ row. row.crate_id == crate_id) rows
    then map (count_one crate_id) rows
    else record { crate_id = crate_id; version_id = version_id; num_versions = some 1 } ∷ rows

abbrev pub set_versions : Version → Tables → Tables
set_versions version s = record s {
  registry = record s.registry { versions = version ∷ s.registry.versions };
  next_version_id = suc version.id;
  default_versions = count_version version.crate_id version.id s.default_versions;
}

-- `NewVersion::save`, and the error of a number that is taken.
unfoldable pub save : Version → Tables → AppResult (Version × Tables)
unfolding text_eq count_version
save version s =
    if any (is_version_of version.crate_id version.num version.num_no_build) s.registry.versions
    then err
        (bad_request "crate version `{version}` is already uploaded" (version.num_no_build ∷ []))
    else ok (version, set_versions version s)

-- `crate_ids.get`: a name stands once in `crates`.
unfoldable pub exact_id : List Crate → Text → Option ℕ
unfolding text_eq
exact_id [] name = none
exact_id (krate ∷ crates) name =
    if text_eq krate.name name then some krate.id else exact_id crates name

abbrev pub kind_or_normal : Option DependencyKind → DependencyKind
kind_or_normal none = normal
kind_or_normal (some kind) = kind

abbrev pub dependency_row : ℕ → EncodableCrateDependency → Option ℕ → AppResult DependencyRow
dependency_row version_id dep none = err (bad_request "no known crate named `{}`" (dep.name ∷ []))
dependency_row version_id dep (some crate_id) = ok (record {
  version_id = version_id;
  crate_id = crate_id;
  req = dep.version_req;
  kind = kind_or_normal dep.kind;
  optional = dep.optional;
  default_features = dep.default_features;
  features = dep.features;
  target = dep.target;
  explicit_name = dep.explicit_name_in_toml;
})

unfoldable pub dependency_rows :
    List Crate → ℕ → List EncodableCrateDependency → AppResult (List DependencyRow)
unfolding exact_id
dependency_rows crates version_id [] = ok []
dependency_rows crates version_id (dep ∷ deps) = do
  row ← dependency_row version_id dep (exact_id crates dep.name)
  rows ← dependency_rows crates version_id deps
  ok (row ∷ rows)

-- `add_dependencies`
unfoldable pub add_dependencies : List EncodableCrateDependency → ℕ → Tables → AppResult Tables
unfolding dependency_rows
add_dependencies deps version_id s = do
  rows ← dependency_rows s.registry.rows.crates version_id deps
  ok (record s { dependencies = rows ++ s.dependencies })
