-- ===== src/Publish/Refused.antt =====
-- What a publish request that fails leaves.
use crates_io.Prelude.{
  ℕ, ◌≡◌, refl, Text, Option, none, some, List, ◌∷◌, map, ◌∙◌, ap, subst, inl, inr, ok, err, ◌>>=◌,
  ◌⊎◌,
}
use crates_io.Errors.{AppError, AppResult}
use crates_io.Auth.{
  Parts, Conn, check, for_crate, with_endpoint_scope, default, optional_from_request_parts,
}
use crates_io.Auth.Writes.{check-writes}
use crates_io.Database.Token.Lookup.{erase}
use crates_io.RateLimiter.{Bucket}
use crates_io.Trustpub.AccessToken.{AccessToken}
use crates_io.Yank.{Job}
use crates_io.Publish.Body.{Reader}
use crates_io.Publish.Tables.{Tables, App, AuthType, Request, Upload, GoodCrate}
use crates_io.Publish.Access.{
  authorize, authorize_with, set_conn, limit, trustpub_token, endpoint_scope,
}
use crates_io.Publish.Transaction.{store, settle, transaction}
use crates_io.Publish.Handler.{
  begin, prepare, verify, after_prepare, after_limit, set_buckets, after_verified, after_authorize,
  after_begin, publish,
}

-- The tables with what a request writes before its transaction: the time that its token was used
-- at, and the user's row of the rate limiter.
abbrev pub marked : Conn → List Bucket → Tables → Tables
marked conn buckets s = set_buckets buckets (set_conn conn s)

-- The same users, and the same tokens but for the times of their last use.
abbrev pub SameConn : Conn → Conn → Type 0
SameConn conn conn' =
    (conn'.users ≡ conn.users) × (map erase conn'.api_tokens ≡ map erase conn.api_tokens)

-- The storage after a request that failed: as before, or, if the database has refused the jobs that are enqueued behind the
-- upload, with the tarball.
abbrev pub MayHaveUploaded :
    App → List (Text × Text × List ℕ) → List (Text × Text × List ℕ) → Type 0
MayHaveUploaded app uploads uploads' =
    (uploads' ≡ uploads)
    ⊎ ((jobs : List Job) × (e : Text) × (app.enqueue_error jobs ≡ some e)
        × (upload : Text × Text × List ℕ) × (uploads' ≡ upload ∷ uploads))

-- The tables differ from those before only in what is written before the transaction, and in the storage.
abbrev pub OnlyMarked : App → Tables → Tables → Type 0
OnlyMarked app s s' =
    (conn : Conn) × (buckets : List Bucket) × (uploads : List (Text × Text × List ℕ)) × SameConn
      s.registry.rows.conn conn
    × MayHaveUploaded app s.uploads uploads
    × (s' ≡ record (marked conn buckets s) { uploads = uploads })

abbrev Rolled : App → Tables → Tables → Type 0
Rolled app s s' =
    (uploads : List (Text × Text × List ℕ)) × MayHaveUploaded app s.uploads uploads
    × (s' ≡ record s { uploads = uploads })

settle-err :
    (app : App) (request : Request) (upload : Upload) (g : GoodCrate) (jobs : List Job)
    (refusal : Option Text) (s s' : Tables) (e : AppError)
    → app.enqueue_error jobs ≡ refusal
    → (settle request upload g refusal s s').0 ≡ err e
    → Rolled app s (settle request upload g refusal s s').1
settle-err app request upload g jobs none s s' e refused h = cc
settle-err app request upload g jobs (some x) s s' e refused h = (
  _,
  inr (jobs, x, refused, (g.krate.name, request.version_string, upload.tarball_bytes), refl),
  refl,
)

transaction-err :
    (app : App) (request : Request) (upload : Upload) (r : AppResult (GoodCrate × Tables))
    (s : Tables) (e : AppError)
    → (transaction app request upload r s).0 ≡ err e
    → Rolled app s (transaction app request upload r s).1
transaction-err app request upload (err x) s e h = (s.uploads, inl refl, refl)
transaction-err app request upload (ok (g, s')) s e h =
    settle-err app request upload g s'.registry.jobs (app.enqueue_error s'.registry.jobs) s s' e
      refl h

authorize_with-conn :
    (app : App) (now : ℕ) (parts : Parts) (request : Request) (s : Tables)
    (r : AppResult (Option AccessToken))
    → (conn : Conn) × SameConn s.registry.rows.conn conn
      × ((authorize_with app now parts request s r).1 ≡ set_conn conn s)
authorize_with-conn app now parts request s (err e) = (s.registry.rows.conn, (refl, refl), refl)
authorize_with-conn app now parts request s (ok (some token)) =
    (s.registry.rows.conn, (refl, refl), refl)
authorize_with-conn app now parts request s (ok none) =
    let c =
      for_crate (with_endpoint_scope default (endpoint_scope request.existing_crate))
        request.metadata.name in
    (
      (check app.server.sha256 app.server.allowed_origins now c parts s.registry.rows.conn).1,
      check-writes app.server.sha256 app.server.allowed_origins now c parts s.registry.rows.conn,
      refl,
    )

pub authorize-conn :
    (app : App) (now : ℕ) (parts : Parts) (request : Request) (s : Tables)
    → (conn : Conn) × SameConn s.registry.rows.conn conn
      × ((authorize app now parts request s).1 ≡ set_conn conn s)
unfolding authorize
authorize-conn app now parts request s =
    authorize_with-conn app now parts request s
      (optional_from_request_parts parts.authorization >>= trustpub_token)

module _ (app : App) (now : ℕ) where
  after_prepare-err :
      (auth : AuthType) (email : Option Text) (request : Request) (s : Tables)
      (r : AppResult Upload) (e : AppError)
      → (after_prepare app now auth email request s r).0 ≡ err e
      → Rolled app s (after_prepare app now auth email request s r).1
  unfolding store
  after_prepare-err auth email request s (err x) e h = (s.uploads, inl refl, refl)
  after_prepare-err auth email request s (ok upload) e h =
      transaction-err app request upload _ s e h

  after_limit-err :
      (auth : AuthType) (email : Option Text) (request : Request) (reader : Reader) (s : Tables)
      (r : AppResult (Unit {0}) × List Bucket) (e : AppError)
      → (after_limit app now auth email request reader s r).0 ≡ err e
      → Rolled app (set_buckets r.1 s) (after_limit app now auth email request reader s r).1
  after_limit-err auth email request reader s (err x, buckets) e h = (s.uploads, inl refl, refl)
  after_limit-err auth email request reader s (ok _, buckets) e h =
      after_prepare-err auth email request (set_buckets buckets s) (prepare app request reader) e h

  after_verified-err :
      (auth : AuthType) (request : Request) (reader : Reader) (s : Tables)
      (r : AppResult (Option Text)) (e : AppError)
      → (after_verified app now auth request reader s r).0 ≡ err e
      → (buckets : List Bucket) × Rolled app
          (set_buckets buckets s)
          (after_verified app now auth request reader s r).1
  after_verified-err auth request reader s (err x) e h =
      (s.registry.buckets, (s.uploads, inl refl, refl))
  after_verified-err auth request reader s (ok email) e h =
      let r = limit app now auth request.existing_crate s.registry.buckets in
      (r.1, after_limit-err auth email request reader s r e h)

  after_authorize-err :
      (request : Request) (reader : Reader) (r : AppResult AuthType) (s : Tables) (e : AppError)
      → (after_authorize app now request reader (r, s)).0 ≡ err e
      → (buckets : List Bucket) × Rolled app
          (set_buckets buckets s)
          (after_authorize app now request reader (r, s)).1
  after_authorize-err request reader (err x) s e h =
      (s.registry.buckets, (s.uploads, inl refl, refl))
  after_authorize-err request reader (ok auth) s e h =
      after_verified-err auth request reader s (verify app auth request s) e h

  after_begin-err :
      (parts : Parts) (s : Tables) (r : AppResult (Request × Reader)) (e : AppError)
      → (after_begin app now parts s r).0 ≡ err e
      → OnlyMarked app s (after_begin app now parts s r).1
  after_begin-err parts s (err x) e h =
      (s.registry.rows.conn, s.registry.buckets, s.uploads, (refl, refl), inl refl, refl)
  after_begin-err parts s (ok (request, reader)) e h =
      let (conn, same, sets) = authorize-conn app now parts request s in
      let r = authorize app now parts request s in
      let (buckets, (uploads, may, left)) = after_authorize-err request reader r.0 r.1 e h in
      (
        conn,
        buckets,
        uploads,
        same,
        subst (λ (t : Tables). MayHaveUploaded app t.uploads uploads) sets may,
        left ∙ ap (λ t. record (set_buckets buckets t) { uploads = uploads }) sets,
      )

pub publish-err :
    (app : App) (now : ℕ) (parts : Parts) (reader : Reader) (s : Tables) (e : AppError)
    → (publish app now parts reader s).0 ≡ err e
    → OnlyMarked app s (publish app now parts reader s).1
unfolding publish
publish-err app now parts reader s e h =
    after_begin-err app now parts s (begin app now reader s) e h
