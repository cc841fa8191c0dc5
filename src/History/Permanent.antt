-- ===== src/History/Permanent.antt =====
-- What no sequence of requests changes.
use crates_io.Prelude.{refl, subst, ap, ℕ}
use crates_io.Publish.Tables.{Tables, App}
use crates_io.Prelude.{map}
use crates_io.Deletion.{delete_crate}
use crates_io.Yank.Refused.{served}
use crates_io.History.{Step, Steps, publishes, yanks, deletes, done, next}
use crates_io.History.Keeps.{Keeps, Keeps-chain, SameReleases-Keeps, crate_id_of}
use crates_io.History.Published.{publish-Keeps}
use crates_io.History.Yanked.{served-Settled}
use crates_io.History.Deleted.{delete_crate-Keeps}

Step-Keeps : (app : App) (now : ℕ) (s s' : Tables) → Step app now s s' → Keeps s s'
Step-Keeps app now s s' (publishes parts reader e) =
    subst (Keeps s) e (publish-Keeps app now parts reader s)
Step-Keeps app now s s' (yanks name num parts endpoint e) =
    let (crates, versions) =
      served-Settled app.server app.rate_limiter now name num parts endpoint s.registry in
    subst (Keeps s) e (
      SameReleases-Keeps s
        (record s {
          registry = (served app.server app.rate_limiter now name num parts endpoint s.registry).1;
        })
        (ap (map crate_id_of) crates, versions, refl, refl))
Step-Keeps app now s s' (deletes name parts a e e') = subst (Keeps s) e' (
    subst (λ (t : Tables). Keeps t (delete_crate app.server now name parts a).1.tables) e
      (delete_crate-Keeps app.server now name parts a))

-- Whatever is published, yanked and deleted, one request after another and with any outcome: a crate or a version that
-- is there afterwards was there before, or has an id that had not been given out before. A version that was there before
-- still has all that it was published with, though it may be yanked or not, and one that was there, of a crate
-- whose id had been given out, is there as long as its crate is.
pub Steps-Keeps : (app : App) (s t : Tables) → Steps app s t → Keeps s t
Steps-Keeps app s t done = SameReleases-Keeps s s (refl, refl, refl, refl)
Steps-Keeps app s t (next {t = m} now first rest) =
    Keeps-chain s m t (Step-Keeps app now s m first) (Steps-Keeps app m t rest)
