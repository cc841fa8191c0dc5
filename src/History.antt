-- ===== src/History.antt =====
-- src/controllers/krate/publish.rs, src/controllers/version/yank.rs and update.rs, src/controllers/krate/delete.rs: the
-- requests of the whole registry on crates and versions, one after another.
pub mod Keeps
pub mod Published
pub mod Yanked
pub mod Deleted
pub mod Permanent
pub mod Numbers
mod Tests
use crates_io.Prelude.{ℕ, ◌≡◌, Text}
use crates_io.Auth.{Parts}
use crates_io.Yank.Refused.{Endpoint, served}
use crates_io.Publish.Body.{Reader}
use crates_io.Publish.Tables.{Tables, App}
use crates_io.Publish.Handler.{publish}
use crates_io.Deletion.{Archive, delete_crate}

-- A request is served at a time, whether it succeeds or fails. The times of creation and the numbers of downloads, by
-- which a deletion is decided, are whatever they are by then.
pub data Step (app : App) (now : ℕ) : Tables → Tables → Type 0 where
  publishes :
      {s s' : Tables} (parts : Parts) (reader : Reader)
      → (publish app now parts reader s).1 ≡ s'
      → Step app now s s'
  yanks :
      {s s' : Tables} (name num : Text) (parts : Parts) (endpoint : Endpoint)
      → record s {
        registry = (served app.server app.rate_limiter now name num parts endpoint s.registry).1;
      }
        ≡ s'
      → Step app now s s'
  deletes :
      {s s' : Tables} (name : Text) (parts : Parts) (a : Archive)
      → a.tables ≡ s
      → (delete_crate app.server now name parts a).1.tables ≡ s'
      → Step app now s s'

pub data Steps (app : App) : Tables → Tables → Type 0 where
  done : {s : Tables} → Steps app s s
  next : {s t u : Tables} (now : ℕ) → Step app now s t → Steps app t u → Steps app s u
