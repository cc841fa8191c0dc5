-- ===== src/Publish/Transaction.antt =====
-- src/controllers/krate/publish.rs: the transaction of a publish request, its steps put together.
use crates_io.Prelude.{
  ℕ, Text, Option, none, some, List, [], ◌∷◌, ◌++◌, false, if◌then◌else◌, ok, err, ◌>>=◌, ◌>>◌,
  codes, is_empty, map_err,
}
use crates_io.Errors.{AppResult, internal}
use crates_io.Database.Krate.{Crate}
use crates_io.Yank.{
  Version, Job, sync_to_git_index, sync_to_sparse_index, send_publish_notifications,
  analyze_crate_file, sync_crate_feed, generate_og_image, check_typosquat, sync_updates_feed,
  sync_crates_feed, render_and_upload_readme,
}
use crates_io.Publish.Body.{PublishMetadata}
use crates_io.Publish.Manifest.{Package}
use crates_io.Publish.Dependencies.{convert_dependencies}
use crates_io.Publish.Tables.{Tables, App, AuthType, Request, Upload, GoodCrate}
use crates_io.Publish.Rows.{NewCrate, persist_crate, save, add_dependencies}
use crates_io.Publish.Labels.{DefaultVersion, update_keywords, update_categories}
use crates_io.Publish.Store.{
  is_reserved_name, ensure_not_reserved, ensure_same_name, count_versions_published_today,
  ensure_daily_limit, new_version, set_published_by, record_action, enqueue,
  existing_default_version, replace_default, ensure_known,
}

abbrev pub persisted : PublishMetadata → Package → NewCrate
persisted metadata pkg = record {
  name = metadata.name;
  description = pkg.description;
  homepage = pkg.homepage;
  documentation = pkg.documentation;
  readme = metadata.readme;
  repository = pkg.repository;
}

abbrev pub file_name : Option Text → Text
file_name none = codes "README.md"
file_name (some name) = name

abbrev pub readme_jobs : ℕ → Request → Upload → List Job
readme_jobs version_id request upload = elim request.metadata.readme [
  | none ↦ []
  | some readme ↦
      if is_empty readme
      then []
      else render_and_upload_readme version_id readme (file_name request.metadata.readme_file)
          upload.tarball_info.manifest.pkg.repository upload.tarball_info.path_in_vcs
        ∷ []
]

-- The jobs behind the upload, newest first.
abbrev pub version_jobs : Text → ℕ → List Job
version_jobs name version_id =
    analyze_crate_file version_id
    ∷ sync_updates_feed
    ∷ sync_crate_feed name
    ∷ send_publish_notifications version_id
    ∷ sync_to_sparse_index name
    ∷ sync_to_git_index name
    ∷ []

abbrev pub og_image_jobs : Text → Option (DefaultVersion × ℕ) → List Job
og_image_jobs name none = generate_og_image name ∷ []
og_image_jobs name (some existing) = []

abbrev pub new_crate_jobs : Text → Option Crate → List Job
new_crate_jobs name none = check_typosquat name ∷ sync_crates_feed ∷ []
new_crate_jobs name (some existing) = []

abbrev pub count_of : Option (DefaultVersion × ℕ) → ℕ
count_of none = 0
count_of (some (existing, count)) = count

abbrev pub or_version : Text → Option Text → Text
or_version version none = version
or_version version (some default_version) = default_version

-- The tests and writes up to the new version's row.
unfoldable pub persist_version :
    App → ℕ → AuthType → Request → Upload → Tables → AppResult (Crate × Version × Tables)
unfolding is_reserved_name persist_crate count_versions_published_today save
persist_version app now auth request upload s = do
  ensure_not_reserved
      (is_reserved_name app.server.lower s.reserved_crate_names request.metadata.name)
  (krate, s₁) ←
      persist_crate app auth (persisted request.metadata upload.tarball_info.manifest.pkg) s
  ensure_same_name krate.name request.metadata.name
  ensure_daily_limit app.new_version_rate_limit
      (count_versions_published_today now krate.id s₁.registry.versions)
  (version, s₂) ← save (new_version app now auth request upload krate.id s₁.next_version_id) s₁
  ok (krate, version, s₂)

-- Everything behind the new version's row, if the database takes the jobs.
unfoldable pub link_version :
    App
    → AuthType
    → Option Text
    → Request
    → Upload
    → Crate
    → Version
    → Tables
    → AppResult (GoodCrate × Tables)
unfolding add_dependencies existing_default_version replace_default update_keywords
    update_categories
link_version app auth email request upload krate version s = do
  s₁ ←
      add_dependencies (convert_dependencies app.parsers upload.tarball_info.manifest) version.id
        (record_action auth version.id (set_published_by email version.id s))
  existing ← existing_default_version app.parsers krate.id s₁
  let (default_version, s₂) =
      replace_default app.parsers
        (record { id = version.id; num = request.version_string; yanked = false }) existing krate.id
        s₁
  let s₃ = update_keywords app.server.to_lowercase krate.id version.keywords s₂
  let (unknown_categories, s₄) = update_categories krate.id version.categories s₃
  ensure_known app.domain_name unknown_categories
  map_err (λ e. internal "failed to upload crate: {e}" (e ∷ []))
      (app.upload_crate_file krate.name request.version_string upload.tarball_bytes)
  let s₅ = record s₄ {
    uploads = (krate.name, request.version_string, upload.tarball_bytes) ∷ s₄.uploads;
  }
  ok (
    record {
      krate = krate;
      default_version = or_version request.version_string default_version;
      num_versions = count_of existing;
    },
    enqueue
        (new_crate_jobs krate.name request.existing_crate
          ++ (og_image_jobs krate.name existing
              ++ (version_jobs krate.name version.id ++ readme_jobs version.id request upload)))
        s₅,
  )

-- The jobs are enqueued behind the upload: if the database refuses them the tables are as before, and the tarball stays
-- in the storage.
abbrev pub settle :
    Request → Upload → GoodCrate → Option Text → Tables → Tables → AppResult GoodCrate × Tables
settle request upload good_crate none s s' = (ok good_crate, s')
settle request upload good_crate (some e) s s' = (
  err (internal "{error}" (e ∷ [])),
  record s {
    uploads = (good_crate.krate.name, request.version_string, upload.tarball_bytes) ∷ s.uploads;
  },
)

-- `conn.transaction`: an error leaves the tables as they were before it.
abbrev pub transaction :
    App → Request → Upload → AppResult (GoodCrate × Tables) → Tables → AppResult GoodCrate × Tables
transaction app request upload (err e) s = (err e, s)
transaction app request upload (ok (good_crate, s')) s =
    settle request upload good_crate (app.enqueue_error s'.registry.jobs) s s'

unfoldable pub store :
    App → ℕ → AuthType → Option Text → Request → Upload → Tables → AppResult GoodCrate × Tables
unfolding persist_version link_version
store app now auth email request upload s =
    transaction app request upload
      (do
        (krate, version, s') ← persist_version app now auth request upload s
        link_version app auth email request upload krate version s')
      s
