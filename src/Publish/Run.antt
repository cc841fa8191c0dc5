-- ===== src/Publish/Run.antt =====
-- A publish request that succeeds, taken apart into its steps.
use crates_io.Prelude.{
  ℕ, ◌≡◌, refl, Text, Option, none, some, ap, List, sym, subst, ok, err, >>=-eq-ok,
}
use crates_io.Errors.{AppResult}
use crates_io.Auth.{Parts, Conn}
use crates_io.RateLimiter.{Bucket}
use crates_io.Yank.{Version}
use crates_io.Database.Krate.{Crate}
use crates_io.Publish.Body.{Reader}
use crates_io.Publish.Tables.{Tables, App, AuthType, Request, Upload, GoodCrate}
use crates_io.Publish.Access.{authorize, set_conn, limit}
use crates_io.Publish.Transaction.{store, settle, transaction, persist_version, link_version}
use crates_io.Publish.Handler.{
  begin, prepare, verify, after_prepare, after_limit, after_verified, after_authorize, after_begin,
  publish,
}
use crates_io.Publish.Refused.{marked, authorize-conn}

pub record Run (app : App) (now : ℕ) (parts : Parts) (reader : Reader) (s : Tables)
    (good_crate : GoodCrate) (s' : Tables) : Type 0 where
  pub request : Request
  pub rest : Reader
  pub auth : AuthType
  pub conn : Conn
  pub email : Option Text
  pub buckets : List Bucket
  pub upload : Upload
  pub krate : Crate
  pub version : Version
  pub s_version : Tables
  pub begun : begin app now reader s ≡ ok (request, rest)
  pub authorized : authorize app now parts request s ≡ (ok auth, set_conn conn s)
  pub verified : verify app auth request (set_conn conn s) ≡ ok email
  pub limited : limit app now auth request.existing_crate s.registry.buckets ≡ (ok tt, buckets)
  pub prepared : prepare app request rest ≡ ok upload
  pub persisted :
      persist_version app now auth request upload (marked conn buckets s)
      ≡ ok (krate, version, s_version)
  pub linked :
      link_version app auth email request upload krate version s_version ≡ ok (good_crate, s')

settle-ok :
    (request : Request) (upload : Upload) (g g' : GoodCrate) (refusal : Option Text) (s s' : Tables)
    → (settle request upload g' refusal s s').0 ≡ ok g
    → ◌≡◌ {A = GoodCrate × Tables} (g', s') (g, (settle request upload g' refusal s s').1)
settle-ok request upload g g' none s s' h = cc
settle-ok request upload g g' (some e) s s' h = cc

transaction-ok :
    (app : App) (request : Request) (upload : Upload) (r : AppResult (GoodCrate × Tables))
    (s : Tables) (g : GoodCrate)
    → (transaction app request upload r s).0 ≡ ok g
    → r ≡ ok (g, (transaction app request upload r s).1)
transaction-ok app request upload (err x) s g h = cc
transaction-ok app request upload (ok (g', s')) s g h =
    ap ok (settle-ok request upload g g' (app.enqueue_error s'.registry.jobs) s s' h)

module _ (app : App) (now : ℕ) (parts : Parts) (reader : Reader) (s : Tables) (g : GoodCrate) where
  -- Each step's result, with the equation that gives it, up to the transaction.
  by_prepare :
      (request : Request) (rest : Reader) (auth : AuthType) (conn : Conn) (email : Option Text)
      (buckets : List Bucket) (r : AppResult Upload)
      → begin app now reader s ≡ ok (request, rest)
      → authorize app now parts request s ≡ (ok auth, set_conn conn s)
      → verify app auth request (set_conn conn s) ≡ ok email
      → limit app now auth request.existing_crate s.registry.buckets ≡ (ok tt, buckets)
      → prepare app request rest ≡ r
      → (after_prepare app now auth email request (marked conn buckets s) r).0 ≡ ok g
      → Run app now parts reader s g
          (after_prepare app now auth email request (marked conn buckets s) r).1
  unfolding store
  by_prepare request rest auth conn email buckets (err e) begun authorized verified limited e₁ h =
      cc
  by_prepare request rest auth conn email buckets (ok upload) begun authorized verified limited
        prepared h =
      let stored = transaction-ok app request upload _ (marked conn buckets s) g h in
      let ((krate, version, s_version), persisted, linked) =
        >>=-eq-ok (persist_version app now auth request upload (marked conn buckets s)) _ stored in
      record {
        request = request;
        rest = rest;
        auth = auth;
        conn = conn;
        email = email;
        buckets = buckets;
        upload = upload;
        krate = krate;
        version = version;
        s_version = s_version;
        begun = begun;
        authorized = authorized;
        verified = verified;
        limited = limited;
        prepared = prepared;
        persisted = persisted;
        linked = linked;
      }

  by_limit :
      (request : Request) (rest : Reader) (auth : AuthType) (conn : Conn) (email : Option Text)
      (r : AppResult (Unit {0}) × List Bucket)
      → begin app now reader s ≡ ok (request, rest)
      → authorize app now parts request s ≡ (ok auth, set_conn conn s)
      → verify app auth request (set_conn conn s) ≡ ok email
      → limit app now auth request.existing_crate s.registry.buckets ≡ r
      → (after_limit app now auth email request rest (set_conn conn s) r).0 ≡ ok g
      → Run app now parts reader s g
          (after_limit app now auth email request rest (set_conn conn s) r).1
  by_limit request rest auth conn email (err e, buckets) begun authorized verified limited h = cc
  by_limit request rest auth conn email (ok tt, buckets) begun authorized verified limited h =
      by_prepare request rest auth conn email buckets (prepare app request rest) begun authorized
        verified limited refl h

  by_verified :
      (request : Request) (rest : Reader) (auth : AuthType) (conn : Conn)
      (r : AppResult (Option Text))
      → begin app now reader s ≡ ok (request, rest)
      → authorize app now parts request s ≡ (ok auth, set_conn conn s)
      → verify app auth request (set_conn conn s) ≡ r
      → (after_verified app now auth request rest (set_conn conn s) r).0 ≡ ok g
      → Run app now parts reader s g
          (after_verified app now auth request rest (set_conn conn s) r).1
  by_verified request rest auth conn (err e) begun authorized verified h = cc
  by_verified request rest auth conn (ok email) begun authorized verified h =
      by_limit request rest auth conn email
        (limit app now auth request.existing_crate s.registry.buckets) begun authorized verified
        refl h

  by_authorize :
      (request : Request) (rest : Reader) (r : AppResult AuthType) (s₁ : Tables) (conn : Conn)
      → begin app now reader s ≡ ok (request, rest)
      → authorize app now parts request s ≡ (r, s₁)
      → s₁ ≡ set_conn conn s
      → (after_authorize app now request rest (r, s₁)).0 ≡ ok g
      → Run app now parts reader s g (after_authorize app now request rest (r, s₁)).1
  by_authorize request rest (err e) s₁ conn begun authorized sets h = cc
  by_authorize request rest (ok auth) s₁ conn begun authorized sets h =
      subst
        (λ t.
          authorize app now parts request s ≡ (ok auth, t)
          → (after_authorize app now request rest (ok auth, t)).0 ≡ ok g
          → Run app now parts reader s g (after_authorize app now request rest (ok auth, t)).1)
        (sym sets)
        (λ authorized h.
          by_verified request rest auth conn (verify app auth request (set_conn conn s)) begun
            authorized refl h)
        authorized h

  by_begin :
      (r : AppResult (Request × Reader))
      → begin app now reader s ≡ r
      → (after_begin app now parts s r).0 ≡ ok g
      → Run app now parts reader s g (after_begin app now parts s r).1
  by_begin (err e) begun h = cc
  by_begin (ok (request, rest)) begun h =
      let (conn, same, sets) = authorize-conn app now parts request s in
      let r = authorize app now parts request s in
      by_authorize request rest r.0 r.1 conn begun refl sets h

  pub publish-Run :
      (publish app now parts reader s).0 ≡ ok g
      → Run app now parts reader s g (publish app now parts reader s).1
  unfolding publish
  publish-Run h = by_begin (begin app now reader s) refl h
