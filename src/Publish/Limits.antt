-- ===== src/Publish/Limits.antt =====
-- The version that a publish request writes, and its limits.
use crates_io.Prelude.{ℕ, ◌≤◌, ◌≡◌, pos, Option, false}
use crates_io.Database.Krate.{Crate}
use crates_io.Yank.{Version}
use crates_io.Publish.Tables.{Tables, App}
use crates_io.Publish.Handler.{crate_max_features, max_upload_size_of}
use crates_io.Publish.Bounds.{WithinLimits}

-- A new version of a crate: its size is that of a tarball within the limit of the crate, and what
-- it takes from the manifest is within the limits.
abbrev pub IsPublished : App → Option Crate → ℕ → Version → Type 0
IsPublished app existing crate_id v =
    (v.crate_id ≡ crate_id)
    × (v.yanked ≡ false)
    × ((size : ℕ) × (v.crate_size ≡ pos size)
        × (size ≤ max_upload_size_of existing app.max_upload_size))
    × WithinLimits (crate_max_features existing app.max_features) v.description v.keywords
        v.categories v.features
