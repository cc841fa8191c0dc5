-- ===== src/Yank/Permission.antt =====
-- Who may yank.
use crates_io.Prelude.{
  ◌≡◌, refl, inl, inr, Text, Option, ◌∷◌, any, Bool, true, false, not, ◌&&◌, if◌then◌else◌, ok, err,
  ◌⊎◌, ◌≢◌, >>=-eq-ok, if-eq-ok,
}
use crates_io.Errors.{AppResult}
use crates_io.Database.Krate.{Crate}
use crates_io.Auth.{Parts, Authentication, check, for_crate, with_endpoint_scope, default}
use crates_io.Auth
use crates_io.Owners.Base.{Server}
use crates_io.Database.Owners.{owners}
use crates_io.Rights.{Rights, no_rights, publish, full, get, lt_rights}
use crates_io.Yank.{
  ensure_may_yank, Version, VersionOwnerAction, Registry, is_changed, unwrap_or, write_yank,
  may_yank, written, perform_version_yank_update,
}

-- A user may yank: with rights to publish, or as an administrator whose rights could be asked for.
abbrev pub MayYank : Server → Authentication → Crate → Registry → Type 0
MayYank server auth krate s =
    (rights : Rights) × (get server.decrypt server.github (Auth.user auth)
        (owners s.rows.conn.users s.rows.teams s.rows.crate_owners krate.id)
      ≡ ok rights)
    × ((rights ≢ no_rights) ⊎ ((Auth.user auth).is_admin ≡ true))

may_yank_case :
    (r : Rights) (b : Bool) → (lt_rights r publish && not b) ≡ false → (r ≢ no_rights) ⊎ (b ≡ true)
may_yank_case no_rights true h = inr refl
may_yank_case no_rights false h = cc
may_yank_case publish b h = inl (λ e. cc)
may_yank_case full b h = inl (λ e. cc)

-- A version is changed, an action recorded or a job enqueued only for a user who may yank, and the
-- action is that user's.
pub perform_version_yank_update-MayYank :
    (server : Server) (auth : Authentication) (version : Version) (krate : Crate)
    (yanked : Option Bool) (message : Option Text) (s : Registry)
    → (perform_version_yank_update server auth version krate yanked message s).1 ≢ s
    → MayYank server auth krate s
      × ((rest : VersionOwnerAction) × ((perform_version_yank_update server auth version krate
              yanked message s).1.version_owner_actions
            ≡ rest ∷ s.version_owner_actions)
          × (rest.user_id ≡ (Auth.user auth).id)
          × (rest.version_id ≡ version.id))
unfolding perform_version_yank_update
perform_version_yank_update-MayYank server auth version krate yanked message s changed =
    by_answer (may_yank server auth krate s) refl changed
  where
    flag : Bool
    flag = unwrap_or yanked version.yanked

    recorded :
        (b : Bool) (a : VersionOwnerAction) (x : Registry)
        → x.version_owner_actions ≡ a ∷ s.version_owner_actions
        → a.user_id ≡ (Auth.user auth).id
        → a.version_id ≡ version.id
        → (if b then x else s) ≢ s
        → (rest : VersionOwnerAction) × ((if b then x else s).version_owner_actions
            ≡ rest ∷ s.version_owner_actions)
          × (rest.user_id ≡ (Auth.user auth).id)
          × (rest.version_id ≡ version.id)
    recorded true a x e u v k = (a, e, u, v)
    recorded false a x e u v k = absurd (k refl)

    by_answer :
        (r : AppResult (Unit {0}))
        → may_yank server auth krate s ≡ r
        → (written r s (write_yank auth version krate flag message s)).1 ≢ s
        → MayYank server auth krate s
          × ((rest : VersionOwnerAction) × ((written r s
                  (write_yank auth version krate flag message s)).1.version_owner_actions
                ≡ rest ∷ s.version_owner_actions)
              × (rest.user_id ≡ (Auth.user auth).id)
              × (rest.version_id ≡ version.id))
    by_answer (err e) h k = absurd (k refl)
    by_answer (ok tt) h k =
        let (rights, asked, allowed) =
          >>=-eq-ok
            (get server.decrypt server.github (Auth.user auth)
              (owners s.rows.conn.users s.rows.teams s.rows.crate_owners krate.id))
            (ensure_may_yank (Auth.user auth)) h in
        let (passes, done) =
          if-eq-ok (lt_rights rights publish && not (Auth.user auth).is_admin) _ (ok tt) tt
            allowed in
        (
          (rights, asked, may_yank_case rights (Auth.user auth).is_admin passes),
          recorded (any (is_changed version.id flag message) s.versions) _ _ refl refl refl k,
        )
