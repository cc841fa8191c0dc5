-- ===== src/Yank/Refused.antt =====
-- What a refused request to yank leaves.
use crates_io.Prelude.{ℕ, ◌≡◌, refl, Text, Option, none, some, List, Bool, ok, err}
use crates_io.Errors.{AppError, AppResult}
use crates_io.Database.Krate.{Crate}
use crates_io.Database.Token.{yank}
use crates_io.Auth.{Parts, Authentication, check, for_crate, with_endpoint_scope, default}
use crates_io.Auth
use crates_io.RateLimiter.{RateLimiter, Bucket, yank_unyank, check_rate_limit}
use crates_io.Owners.Base.{Server}
use crates_io.Yank.{
  Version, Registry, unwrap_or, write_yank, may_yank, written, perform_version_yank_update,
  load_version_and_crate, VersionUpdate, validate_yank_update,
}
use crates_io.Yank.Requests.{
  after_limit, after_auth, yank_authenticated, with_version, modify_yank, update_version, validated,
}

-- What no refused request changes.
abbrev pub SameVersions : Registry → Registry → Type 0
SameVersions s s' =
    (s'.versions ≡ s.versions)
    × (s'.version_owner_actions ≡ s.version_owner_actions)
    × (s'.jobs ≡ s.jobs)

written-err :
    (r : AppResult (Unit {0})) (s s' : Registry) (e : AppError)
    → (written r s s').0 ≡ err e
    → SameVersions s (written r s s').1
written-err (err x) s s' e h = (refl, refl, refl)
written-err (ok tt) s s' e h = cc

after_limit-err :
    (server : Server) (auth : Authentication) (version : Version) (krate : Crate)
    (yanked : Option Bool) (message : Option Text) (s : Registry)
    (r : AppResult (Unit {0}) × List Bucket) (e : AppError)
    → (after_limit server auth version krate yanked message s r).0 ≡ err e
    → SameVersions s (after_limit server auth version krate yanked message s r).1
unfolding perform_version_yank_update
after_limit-err server auth version krate yanked message s (err x, buckets) e h = (refl, refl, refl)
after_limit-err server auth version krate yanked message s (ok _, buckets) e h =
    let s' : Registry = record s { buckets = buckets } in
    written-err (may_yank server auth krate s') s'
      (write_yank auth version krate (unwrap_or yanked version.yanked) message s') e h

after_auth-err :
    (server : Server) (limiter : RateLimiter) (now : ℕ) (version : Version) (krate : Crate)
    (yanked : Option Bool) (message : Option Text) (s : Registry) (r : AppResult Authentication)
    (e : AppError)
    → (after_auth server limiter now version krate yanked message s r).0 ≡ err e
    → SameVersions s (after_auth server limiter now version krate yanked message s r).1
after_auth-err server limiter now version krate yanked message s (err x) e h = (refl, refl, refl)
after_auth-err server limiter now version krate yanked message s (ok auth) e h =
    after_limit-err server auth version krate yanked message s
      (check_rate_limit limiter (Auth.user auth).id yank_unyank now s.buckets) e h

behind_version :
    (r : AppResult (Version × Crate)) (f : Version → Crate → AppResult (Unit {0}) × Registry)
    (s : Registry) (e : AppError)
    → ((version : Version) (krate : Crate)
        → (f version krate).0 ≡ err e
        → SameVersions s (f version krate).1)
    → (with_version r f s).0 ≡ err e
    → SameVersions s (with_version r f s).1
behind_version (err x) f s e g h = (refl, refl, refl)
behind_version (ok (version, krate)) f s e g h = g version krate h

yank_authenticated-err :
    (server : Server) (limiter : RateLimiter) (now : ℕ) (parts : Parts) (version : Version)
    (krate : Crate) (yanked : Option Bool) (message : Option Text) (s : Registry) (e : AppError)
    → (yank_authenticated server limiter now parts version krate yanked message s).0 ≡ err e
    → SameVersions s (yank_authenticated server limiter now parts version krate yanked message s).1
unfolding yank_authenticated
yank_authenticated-err server limiter now parts version krate yanked message s e h =
    let checked =
      check server.sha256 server.allowed_origins now
        (for_crate (with_endpoint_scope default yank) krate.name) parts s.rows.conn in
    after_auth-err server limiter now version krate yanked message
      (record s { rows = record s.rows { conn = checked.1 } }) checked.0 e h

validated-err :
    (v : AppResult (Unit {0})) (r : AppResult (Unit {0}) × Registry) (s : Registry) (e : AppError)
    → (r.0 ≡ err e → SameVersions s r.1)
    → (validated v r s).0 ≡ err e
    → SameVersions s (validated v r s).1
validated-err (err x) r s e f h = (refl, refl, refl)
validated-err (ok tt) r s e f h = f h

-- The two endpoints, and what a request asks of them.
pub data Endpoint : Type 0 where
  modify : Bool → Endpoint
  update : VersionUpdate → Endpoint

abbrev pub served :
    Server
    → RateLimiter
    → ℕ
    → Text
    → Text
    → Parts
    → Endpoint
    → Registry
    → AppResult (Unit {0}) × Registry
served server limiter now name num parts (modify yanked) s =
    modify_yank server limiter now name num parts yanked s
served server limiter now name num parts (update u) s =
    update_version server limiter now name num parts u s

-- A request to either endpoint that fails, be it for the version, the data of an update, the authentication, the
-- rate limit or the rights, changes no version, records no action and enqueues no job.
pub served-err :
    (server : Server) (limiter : RateLimiter) (now : ℕ) (name num : Text) (parts : Parts)
    (endpoint : Endpoint) (s : Registry) (e : AppError)
    → (served server limiter now name num parts endpoint s).0 ≡ err e
    → SameVersions s (served server limiter now name num parts endpoint s).1
unfolding modify_yank update_version
served-err server limiter now name num parts (modify yanked) s e h =
    behind_version (load_version_and_crate server name num s)
      (λ version krate.
        yank_authenticated server limiter now parts version krate (some yanked) none s)
      s e
      (λ version krate.
        yank_authenticated-err server limiter now parts version krate (some yanked) none s e)
      h
served-err server limiter now name num parts (update u) s e h =
    behind_version (load_version_and_crate server name num s)
      (λ version krate.
        validated (validate_yank_update u version)
          (yank_authenticated server limiter now parts version krate u.yanked u.yank_message s) s)
      s e
      (λ version krate.
        validated-err (validate_yank_update u version)
          (yank_authenticated server limiter now parts version krate u.yanked u.yank_message s) s e
          (yank_authenticated-err server limiter now parts version krate u.yanked u.yank_message s
            e))
      h
