-- ===== src/History/Yanked.antt =====
-- src/controllers/version/yank.rs and update.rs: a request to yank leaves the releases.
use crates_io.Prelude.{
  ℕ, ◌≡◌, refl, ◌∙◌, ap, inl, inr, Text, Option, none, some, List, [], ◌∷◌, map, any, Bool,
  Bool-cases, ok, err,
}
use crates_io.Errors.{AppResult}
use crates_io.Database.Krate.{Crate}
use crates_io.Database.Token.{yank}
use crates_io.Auth.{Parts, Authentication, check, for_crate, with_endpoint_scope, default}
use crates_io.Auth
use crates_io.RateLimiter.{RateLimiter, Bucket, yank_unyank, check_rate_limit}
use crates_io.Owners.Base.{Server}
use crates_io.Yank.{
  Version, Registry, unwrap_or, write_yank, may_yank, written, perform_version_yank_update,
  load_version_and_crate, validate_yank_update, set_yanked, is_changed,
}
use crates_io.Yank.Requests.{
  after_limit, after_auth, yank_authenticated, with_version, modify_yank, update_version, validated,
}
use crates_io.Yank.Refused.{Endpoint, modify, update, served}
use crates_io.History.Keeps.{settle}

set_yanked-settle :
    (id : ℕ) (yanked : Bool) (message : Option Text) (v : Version)
    → settle (set_yanked id yanked message v) ≡ settle v
set_yanked-settle id yanked message v = elim (Bool-cases (is_changed id yanked message v)) [
  | inl e ↦ rw e refl
  | inr e ↦ rw e refl
]

map-settle :
    (id : ℕ) (yanked : Bool) (message : Option Text) (versions : List Version)
    → map settle (map (set_yanked id yanked message) versions) ≡ map settle versions
map-settle id yanked message [] = refl
map-settle id yanked message (v ∷ versions) =
    ap (λ w. w ∷ map settle (map (set_yanked id yanked message) versions))
      (set_yanked-settle id yanked message v)
    ∙ ap (λ (ws : List Version). settle v ∷ ws) (map-settle id yanked message versions)

-- The same crates, and the same versions but for what is yanked.
abbrev pub Settled : Registry → Registry → Type 0
Settled r r' = (r'.rows.crates ≡ r.rows.crates) × (map settle r'.versions ≡ map settle r.versions)

write_yank-Settled :
    (auth : Authentication) (version : Version) (krate : Crate) (yanked : Bool)
    (message : Option Text) (r : Registry)
    → Settled r (write_yank auth version krate yanked message r)
write_yank-Settled auth version krate yanked message r =
    elim (Bool-cases (any (is_changed version.id yanked message) r.versions)) [
      | inl e ↦ rw e (refl, map-settle version.id yanked message r.versions)
      | inr e ↦ rw e (refl, refl)
    ]

written-Settled :
    (allowed : AppResult (Unit {0})) (r r' : Registry)
    → Settled r r'
    → Settled r (written allowed r r').1
written-Settled (err e) r r' h = (refl, refl)
written-Settled (ok _) r r' h = h

after_limit-Settled :
    (server : Server) (auth : Authentication) (version : Version) (krate : Crate)
    (yanked : Option Bool) (message : Option Text) (r : Registry)
    (limited : AppResult (Unit {0}) × List Bucket)
    → Settled r (after_limit server auth version krate yanked message r limited).1
unfolding perform_version_yank_update
after_limit-Settled server auth version krate yanked message r (err e, buckets) = (refl, refl)
after_limit-Settled server auth version krate yanked message r (ok _, buckets) =
    let r' : Registry = record r { buckets = buckets } in
    written-Settled (may_yank server auth krate r') r'
      (write_yank auth version krate (unwrap_or yanked version.yanked) message r')
      (write_yank-Settled auth version krate (unwrap_or yanked version.yanked) message r')

after_auth-Settled :
    (server : Server) (limiter : RateLimiter) (now : ℕ) (version : Version) (krate : Crate)
    (yanked : Option Bool) (message : Option Text) (r : Registry) (auth : AppResult Authentication)
    → Settled r (after_auth server limiter now version krate yanked message r auth).1
after_auth-Settled server limiter now version krate yanked message r (err e) = (refl, refl)
after_auth-Settled server limiter now version krate yanked message r (ok auth) =
    after_limit-Settled server auth version krate yanked message r
      (check_rate_limit limiter (Auth.user auth).id yank_unyank now r.buckets)

yank_authenticated-Settled :
    (server : Server) (limiter : RateLimiter) (now : ℕ) (parts : Parts) (version : Version)
    (krate : Crate) (yanked : Option Bool) (message : Option Text) (r : Registry)
    → Settled r (yank_authenticated server limiter now parts version krate yanked message r).1
unfolding yank_authenticated
yank_authenticated-Settled server limiter now parts version krate yanked message r =
    let checked =
      check server.sha256 server.allowed_origins now
        (for_crate (with_endpoint_scope default yank) krate.name) parts r.rows.conn in
    after_auth-Settled server limiter now version krate yanked message
      (record r { rows = record r.rows { conn = checked.1 } }) checked.0

with_version-Settled :
    (loaded : AppResult (Version × Crate)) (f : Version → Crate → AppResult (Unit {0}) × Registry)
    (r : Registry)
    → ((version : Version) (krate : Crate) → Settled r (f version krate).1)
    → Settled r (with_version loaded f r).1
with_version-Settled (err e) f r h = (refl, refl)
with_version-Settled (ok (version, krate)) f r h = h version krate

validated-Settled :
    (valid : AppResult (Unit {0})) (x : AppResult (Unit {0}) × Registry) (r : Registry)
    → Settled r x.1
    → Settled r (validated valid x r).1
validated-Settled (err e) x r h = (refl, refl)
validated-Settled (ok _) x r h = h

pub served-Settled :
    (server : Server) (limiter : RateLimiter) (now : ℕ) (name num : Text) (parts : Parts)
    (endpoint : Endpoint) (r : Registry)
    → Settled r (served server limiter now name num parts endpoint r).1
unfolding modify_yank update_version
served-Settled server limiter now name num parts (modify yanked) r =
    with_version-Settled (load_version_and_crate server name num r) _ r (λ version krate.
      yank_authenticated-Settled server limiter now parts version krate (some yanked) none r)
served-Settled server limiter now name num parts (update u) r =
    with_version-Settled (load_version_and_crate server name num r) _ r (λ version krate.
      validated-Settled (validate_yank_update u version)
        (yank_authenticated server limiter now parts version krate u.yanked u.yank_message r) r
        (yank_authenticated-Settled server limiter now parts version krate u.yanked u.yank_message
          r))
