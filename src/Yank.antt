-- ===== src/Yank.antt =====
-- src/controllers/version/yank.rs and update.rs: a version is yanked, unyanked, or gets another
-- yank message. The jobs that follow are the calls of `enqueue`, newest first; the version that
-- `update_version` returns is left out. There is no transaction: what was written before an error
-- stays.
pub mod Requests
pub mod Update
pub mod Refused
pub mod Permission
mod Examples
mod Tests
use crates_io.Prelude.{
  ℕ, ℤ, Text, Option, none, some, List, [], ◌∷◌, map, any, Bool, true, false, not, ◌&&◌, ◌||◌, ◌==◌,
  if◌then◌else◌, text_eq, ok, err, String, ◌>>=◌, ◌>>◌,
}
use crates_io.Errors.{AppResult, bad_request, forbidden, version_not_found}
use crates_io.Database.User.{User}
use crates_io.Database.Krate.{Crate, by_name}
use crates_io.Database.Token.{yank, ApiToken}
use crates_io.Database.Owners.{owners}
use crates_io.Auth.{Authentication, api_token}
use crates_io.Auth
use crates_io.RateLimiter.{Bucket}
use crates_io.Rights.{Rights, publish, get, lt_rights}
use crates_io.Owners.Base.{Server, State}
use crates_io.Owners.Modify.{find_crate}

-- A row of `versions`, without the columns that publishing leaves to their defaults.
pub record Version : Type 0 where
  pub id : ℕ
  pub crate_id : ℕ
  pub num : Text
  pub num_no_build : Text
  pub created_at : ℕ
  pub features : List (Text × List Text)
  pub yanked : Bool
  pub license : Option Text
  pub crate_size : ℤ
  pub published_by : Option ℕ
  pub checksum : Text
  pub links : Option Text
  pub rust_version : Option Text
  pub has_lib : Bool
  pub lib_name : Option Text
  pub bin_names : List Text
  pub yank_message : Option Text
  pub edition : Option Text
  pub description : Option Text
  pub homepage : Option Text
  pub documentation : Option Text
  pub repository : Option Text
  pub categories : List Text
  pub keywords : List Text
  pub trustpub_data : Option Text

pub record VersionUpdate : Type 0 where
  pub yanked : Option Bool
  pub yank_message : Option Text

pub data VersionAction : Type 0 where
  publish_action yank_action unyank_action : VersionAction

pub record VersionOwnerAction : Type 0 where
  pub version_id : ℕ
  pub user_id : ℕ
  pub api_token_id : Option ℕ
  pub action : VersionAction

pub data Job : Type 0 where
  sync_to_git_index sync_to_sparse_index : Text → Job
  update_default_version send_publish_notifications analyze_crate_file : ℕ → Job
  sync_crate_feed generate_og_image check_typosquat : Text → Job
  sync_updates_feed sync_crates_feed : Job
  delete_crate_from_storage : Text → Job
  -- The version, the text, the file's name, the repository and the path in it.
  render_and_upload_readme : ℕ → Text → Text → Option Text → Option Text → Job

pub record Registry : Type 0 where
  pub rows : State
  pub versions : List Version
  pub version_owner_actions : List VersionOwnerAction
  pub jobs : List Job
  pub buckets : List Bucket

-- `Crate::find_version`
unfoldable pub find_version : List Version → ℕ → Text → Option Version
unfolding text_eq
find_version [] crate_id num = none
find_version (v ∷ versions) crate_id num =
    if v.crate_id == crate_id && text_eq v.num num
    then some v
    else find_version versions crate_id num

abbrev pub version_or_error : Text → Crate → Text → Option Version → AppResult (Version × Crate)
version_or_error name krate num none = err (version_not_found name num)
version_or_error name krate num (some v) = ok (v, krate)

-- `load_version_and_crate`
unfoldable pub load_version_and_crate :
    Server → Text → Text → Registry → AppResult (Version × Crate)
unfolding find_version by_name
load_version_and_crate server name num s = do
  krate ← find_crate name (by_name server.lower s.rows.crates name)
  version_or_error name krate num (find_version s.versions krate.id num)

abbrev pub is_given : Option Text → Bool
is_given none = false
is_given (some message) = true

abbrev pub is_unyank : Option Bool → Bool
is_unyank (some false) = true
is_unyank _ = false

abbrev pub is_unset : Option Bool → Bool
is_unset none = true
is_unset (some b) = false

unfoldable pub validate_yank_update : VersionUpdate → Version → AppResult (Unit {0})
validate_yank_update update version =
    if is_given update.yank_message && is_unyank update.yanked
    then err (bad_request "Cannot set yank message when unyanking" [])
    else if is_given update.yank_message && is_unset update.yanked && not version.yanked
    then err (bad_request "Cannot update yank message for a version that is not yanked" [])
    else ok tt

abbrev pub same_flag : Bool → Bool → Bool
same_flag true b = b
same_flag false b = not b

abbrev pub same_message : Option Text → Option Text → Bool
same_message none none = true
same_message none (some b) = false
same_message (some a) none = false
same_message (some a) (some b) = text_eq a b

-- The row is the version's, and the flag or the message is distinct.
abbrev pub is_changed : ℕ → Bool → Option Text → Version → Bool
is_changed id yanked message v =
    v.id == id && (not (same_flag v.yanked yanked) || not (same_message v.yank_message message))

abbrev pub set_yanked : ℕ → Bool → Option Text → Version → Version
set_yanked id yanked message v =
    if is_changed id yanked message v
    then record v { yanked = yanked; yank_message = message }
    else v

abbrev pub unwrap_or : Option Bool → Bool → Bool
unwrap_or none b = b
unwrap_or (some a) b = a

-- Owners, members of owning teams and administrators may yank.
abbrev pub ensure_may_yank : User → Rights → AppResult (Unit {0})
ensure_may_yank u rights =
    if lt_rights rights publish && not u.is_admin
    then err (forbidden "must already be an owner to yank or unyank")
    else ok tt

abbrev pub action_of : Bool → VersionAction
action_of true = yank_action
action_of false = unyank_action

abbrev pub token_id : Option ApiToken → Option ℕ
token_id none = none
token_id (some t) = some t.id

-- The update and, if a row was updated, the action and the jobs.
abbrev pub write_yank : Authentication → Version → Crate → Bool → Option Text → Registry → Registry
write_yank auth version krate yanked message s =
    if any (is_changed version.id yanked message) s.versions
    then record s {
      versions = map (set_yanked version.id yanked message) s.versions;
      version_owner_actions =
          record {
            version_id = version.id;
            user_id = (Auth.user auth).id;
            api_token_id = token_id (api_token auth);
            action = action_of yanked;
          }
          ∷ s.version_owner_actions;
      jobs =
          sync_to_git_index krate.name
          ∷ sync_to_sparse_index krate.name
          ∷ update_default_version krate.id
          ∷ s.jobs;
    }
    else s

abbrev pub may_yank : Server → Authentication → Crate → Registry → AppResult (Unit {0})
may_yank server auth krate s = do
  rights ←
      get server.decrypt server.github (Auth.user auth)
        (owners s.rows.conn.users s.rows.teams s.rows.crate_owners krate.id)
  ensure_may_yank (Auth.user auth) rights

abbrev pub written : AppResult (Unit {0}) → Registry → Registry → AppResult (Unit {0}) × Registry
written (err e) s s' = (err e, s)
written (ok _) s s' = (ok tt, s')

unfoldable pub perform_version_yank_update :
    Server
    → Authentication
    → Version
    → Crate
    → Option Bool
    → Option Text
    → Registry
    → AppResult (Unit {0}) × Registry
unfolding get owners text_eq
perform_version_yank_update server auth version krate yanked message s =
    written (may_yank server auth krate s) s
      (write_yank auth version krate (unwrap_or yanked version.yanked) message s)
