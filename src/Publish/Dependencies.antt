-- ===== src/Publish/Dependencies.antt =====
-- src/controllers/krate/publish.rs: the dependencies of a manifest, as they are stored, and their
-- tests.
use crates_io.Prelude.{
  ℕ, Text, Option, none, some, List, [], ◌∷◌, ◌++◌, map, Bool, true, false, not, ok, err, ltb,
  if◌then◌else◌, map_err, ◌>>◌, codes, is_empty, length, for_each, text_eq,
}
use crates_io.Errors.{AppResult, bad_request}
use crates_io.Validation.{validate_crate_name, validate_feature, validate_dependency_name}
use crates_io.Publish.Manifest.{
  Dependency, DepsSet, TargetDeps, Manifest, Parsers, crate_name_error, dependency_name_error,
  feature_error,
}
use crates_io.Publish.Checks.{or_empty}

pub data DependencyKind : Type 0 where
  normal build dev : DependencyKind

pub record EncodableCrateDependency : Type 0 where
  pub optional : Bool
  pub default_features : Bool
  pub name : Text
  pub features : List Text
  pub version_req : Text
  pub target : Option Text
  pub kind : Option DependencyKind
  pub explicit_name_in_toml : Option Text
  pub registry : Option Text

abbrev pub or_else {ℓ} : {A : Type ℓ} → Option A → A → A
or_else none a = a
or_else (some b) a = b

abbrev pub bind {ℓ κ} : {A : Type ℓ} {B : Type κ} → Option A → (A → Option B) → Option B
bind none f = none
bind (some a) f = f a

-- The name of the crate, and the name in the manifest where it is another.
abbrev pub names : Text → Option Text → Text × Option Text
names name none = (name, none)
names name (some renamed) = (renamed, some name)

abbrev pub normal_req : Text → Option Text → Text
normal_req text none = text
normal_req text (some req) = req

unfoldable pub convert_dependency :
    Parsers → Text → Dependency → DependencyKind → Option Text → EncodableCrateDependency
convert_dependency parsers name dep kind target =
    let (crate_name, explicit_name) = names name (bind dep.detail (λ it. it.package_name)) in
    record {
      optional = or_else (bind dep.detail (λ it. it.optional)) false;
      default_features = or_else (bind dep.detail (λ it. it.default_features)) true;
      name = crate_name;
      features = or_empty (bind dep.detail (λ it. it.features));
      version_req = normal_req dep.req (parsers.version_req dep.req);
      target = target;
      kind = some kind;
      explicit_name_in_toml = explicit_name;
      registry = bind dep.detail (λ it. it.registry);
    }

-- The closure `add`, without the vector that it pushes to.
abbrev pub add : Parsers → DependencyKind → Option Text → DepsSet → List EncodableCrateDependency
add parsers kind target deps_set =
    map (λ entry. convert_dependency parsers entry.0 entry.1 kind target) deps_set

abbrev pub add_targets : Parsers → List (Text × TargetDeps) → List EncodableCrateDependency
add_targets parsers [] = []
add_targets parsers ((target, deps) ∷ targets) =
    add parsers normal (some target) deps.dependencies
    ++ (add parsers dev (some target) deps.dev_dependencies
        ++ (add parsers build (some target) deps.build_dependencies ++ add_targets parsers targets))

-- `convert_dependencies`
unfoldable pub convert_dependencies : Parsers → Manifest → List EncodableCrateDependency
unfolding convert_dependency
convert_dependencies parsers manifest =
    add parsers normal none (or_empty manifest.dependencies)
    ++ (add parsers dev none (or_empty manifest.dev_dependencies)
        ++ (add parsers build none (or_empty manifest.build_dependencies)
            ++ add_targets parsers (or_empty manifest.target)))

abbrev pub check_registry : Text → Option Text → AppResult (Unit {0})
check_registry name none = ok tt
check_registry name (some registry) =
    if not (is_empty registry)
    then err (
        bad_request
          "Dependency `{}` is hosted on another registry. Cross-registry dependencies are not permitted on crates.io."
          (name ∷ []))
    else ok tt

abbrev pub check_req : Text → Text → Option Text → AppResult (Unit {0})
check_req name text none = err (bad_request "\"{}\" is an invalid version requirement" (text ∷ []))
check_req name text (some req) =
    if text_eq req (codes "*")
    then err (
        bad_request
          "wildcard (`*`) dependency constraints are not allowed on crates.io. Crate with this problem: `{}`"
          (name ∷ []))
    else ok tt

abbrev pub check_explicit_name : Option Text → AppResult (Unit {0})
check_explicit_name none = ok tt
check_explicit_name (some toml_name) =
    map_err dependency_name_error (validate_dependency_name toml_name)

-- `validate_dependency`
unfoldable pub validate_dependency : Parsers → EncodableCrateDependency → AppResult (Unit {0})
unfolding crate_name_error feature_error dependency_name_error text_eq
validate_dependency parsers dep = do
  map_err crate_name_error (validate_crate_name (codes "dependency") dep.name)
  for_each (λ feature. map_err feature_error (validate_feature parsers.xid feature)) dep.features
  check_registry dep.name dep.registry
  check_req dep.name dep.version_req (parsers.version_req dep.version_req)
  check_explicit_name dep.explicit_name_in_toml

unfoldable pub check_dependencies :
    Parsers → ℕ → List EncodableCrateDependency → AppResult (Unit {0})
unfolding validate_dependency
check_dependencies parsers max_dependencies deps =
    if ltb max_dependencies (length deps)
    then err (
        bad_request "crates.io only allows a maximum number of {max_dependencies} dependencies."
          ((max_dependencies ∷ []) ∷ []))
    else for_each (validate_dependency parsers) deps
