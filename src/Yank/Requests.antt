-- ===== src/Yank/Requests.antt =====
-- src/controllers/version/yank.rs and update.rs: the requests of both endpoints, from the version and the
-- authentication to the answer.
use crates_io.Prelude.{ℕ, Text, Option, none, some, List, Bool, ok, err}
use crates_io.Errors.{AppResult}
use crates_io.Database.Krate.{Crate}
use crates_io.Database.Token.{yank}
use crates_io.Auth.{
  Parts, Conn, Authentication, api_token, check, for_crate, with_endpoint_scope, default,
}
use crates_io.Auth
use crates_io.RateLimiter.{RateLimiter, Bucket, yank_unyank, check_rate_limit}
use crates_io.Owners.Base.{Server}
use crates_io.Yank.{
  Version, Registry, VersionUpdate, load_version_and_crate, validate_yank_update,
  perform_version_yank_update,
}

abbrev pub after_limit :
    Server
    → Authentication
    → Version
    → Crate
    → Option Bool
    → Option Text
    → Registry
    → AppResult (Unit {0}) × List Bucket
    → AppResult (Unit {0}) × Registry
after_limit server auth version krate yanked message s (err e, buckets) =
    (err e, record s { buckets = buckets })
after_limit server auth version krate yanked message s (ok _, buckets) =
    perform_version_yank_update server auth version krate yanked message
      (record s { buckets = buckets })

abbrev pub after_auth :
    Server
    → RateLimiter
    → ℕ
    → Version
    → Crate
    → Option Bool
    → Option Text
    → Registry
    → AppResult Authentication
    → AppResult (Unit {0}) × Registry
after_auth server limiter now version krate yanked message s (err e) = (err e, s)
after_auth server limiter now version krate yanked message s (ok auth) =
    after_limit server auth version krate yanked message s
      (check_rate_limit limiter (Auth.user auth).id yank_unyank now s.buckets)

-- The authentication of both endpoints, and what comes behind it.
unfoldable pub yank_authenticated :
    Server
    → RateLimiter
    → ℕ
    → Parts
    → Version
    → Crate
    → Option Bool
    → Option Text
    → Registry
    → AppResult (Unit {0}) × Registry
unfolding check perform_version_yank_update check_rate_limit
yank_authenticated server limiter now parts version krate yanked message s =
    let (auth, conn) =
      check server.sha256 server.allowed_origins now
        (for_crate (with_endpoint_scope default yank) krate.name) parts s.rows.conn in
    after_auth server limiter now version krate yanked message
      (record s { rows = record s.rows { conn = conn } }) auth

abbrev pub with_version :
    AppResult (Version × Crate)
    → (Version → Crate → AppResult (Unit {0}) × Registry)
    → Registry
    → AppResult (Unit {0}) × Registry
with_version (err e) f s = (err e, s)
with_version (ok (version, krate)) f s = f version krate

-- `modify_yank`
unfoldable pub modify_yank :
    Server
    → RateLimiter
    → ℕ
    → Text
    → Text
    → Parts
    → Bool
    → Registry
    → AppResult (Unit {0}) × Registry
unfolding load_version_and_crate yank_authenticated
modify_yank server limiter now name num parts yanked s =
    with_version (load_version_and_crate server name num s)
      (λ version krate.
        yank_authenticated server limiter now parts version krate (some yanked) none s)
      s

abbrev pub validated :
    AppResult (Unit {0})
    → AppResult (Unit {0}) × Registry
    → Registry
    → AppResult (Unit {0}) × Registry
validated (err e) r s = (err e, s)
validated (ok _) r s = r

-- `update_version`
unfoldable pub update_version :
    Server
    → RateLimiter
    → ℕ
    → Text
    → Text
    → Parts
    → VersionUpdate
    → Registry
    → AppResult (Unit {0}) × Registry
unfolding load_version_and_crate validate_yank_update yank_authenticated
update_version server limiter now name num parts update s =
    with_version (load_version_and_crate server name num s)
      (λ version krate.
        validated (validate_yank_update update version)
          (yank_authenticated server limiter now parts version krate update.yanked
            update.yank_message s)
          s)
      s
