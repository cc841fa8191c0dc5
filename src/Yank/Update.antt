-- ===== src/Yank/Update.antt =====
-- What yanking writes.
use crates_io.Prelude.{
  ℕ, ◌≡◌, refl, sym, ◌∙◌, ap, inl, inr, Text, Option, none, some, List, [], ◌∷◌, map, any, Bool,
  true, false, ◌==◌, if◌then◌else◌, text_eq_iff, ok, err, arith, Bool-cases,
}
use crates_io.Errors.{AppResult}
use crates_io.Database.Krate.{Crate}
use crates_io.Auth.{Authentication}
use crates_io.Owners.Base.{Server}
use crates_io.Yank.{
  Version, Registry, same_flag, same_message, is_changed, set_yanked, unwrap_or, write_yank,
  may_yank, written, perform_version_yank_update,
}

-- The row of a version.
unfoldable pub find_row : List Version → ℕ → Option Version
find_row [] id = none
find_row (v ∷ versions) id = if v.id == id then some v else find_row versions id

same_flag_sound : (a b : Bool) → same_flag a b ≡ true → a ≡ b
same_flag_sound true b h = sym h
same_flag_sound false true h = cc
same_flag_sound false false h = refl

same_message_sound : (a b : Option Text) → same_message a b ≡ true → a ≡ b
same_message_sound none none h = refl
same_message_sound none (some b) h = cc
same_message_sound (some a) none h = cc
same_message_sound (some a) (some b) h = ap some ((text_eq_iff a b).0 h)

set_yanked-id :
    (id : ℕ) (yanked : Bool) (message : Option Text) (v : Version)
    → (set_yanked id yanked message v).id ≡ v.id
set_yanked-id id yanked message v = elim (Bool-cases (is_changed id yanked message v)) [
  | inl e ↦ rw e refl
  | inr e ↦ rw e refl
]

-- The version's row has the flag and the message, whether it was changed or had them before.
set_yanked-own :
    (id : ℕ) (yanked : Bool) (message : Option Text) (v : Version)
    → (v.id == id) ≡ true
    → ((set_yanked id yanked message v).yanked ≡ yanked)
      × ((set_yanked id yanked message v).yank_message ≡ message)
set_yanked-own id yanked message v own = elim (Bool-cases (is_changed id yanked message v)) [
  | inl e ↦ rw e (refl, refl)
  | inr e ↦
      let flag : v.yanked ≡ yanked = same_flag_sound v.yanked yanked (ground (arith, e, own)) in
      let text : v.yank_message ≡ message =
        same_message_sound v.yank_message message (ground (arith, e, own)) in
      rw e (flag, text)
]

set_yanked-other :
    (id : ℕ) (yanked : Bool) (message : Option Text) (v : Version)
    → (v.id == id) ≡ false
    → set_yanked id yanked message v ≡ v
set_yanked-other id yanked message v other = rw other refl

-- No row is changed where no row is distinct.
unchanged :
    (id : ℕ) (yanked : Bool) (message : Option Text) (versions : List Version)
    → any (is_changed id yanked message) versions ≡ false
    → map (set_yanked id yanked message) versions ≡ versions
unchanged id yanked message [] h = refl
unchanged id yanked message (v ∷ versions) h =
    let first : is_changed id yanked message v ≡ false = ground (arith, h) in
    let same : set_yanked id yanked message v ≡ v = rw first refl in
    rw (same, unchanged id yanked message versions (ground (arith, h, first))) refl

-- The rows after the update: the version's has the flag and the message, the others are as before.
find_row-map :
    (id : ℕ) (yanked : Bool) (message : Option Text) (versions : List Version) (v : Version)
    → find_row versions id ≡ some v
    → (w : Version) × (find_row (map (set_yanked id yanked message) versions) id ≡ some w)
      × (w.yanked ≡ yanked)
      × (w.yank_message ≡ message)
unfolding find_row
find_row-map id yanked message [] v h = cc
find_row-map id yanked message (x ∷ versions) v h = elim (Bool-cases (x.id == id)) [
  | inl e ↦
      let own : ((set_yanked id yanked message x).id == id) ≡ true =
        ap (λ (n : ℕ). n == id) (set_yanked-id id yanked message x) ∙ e in
      let (flag, text) = set_yanked-own id yanked message x e in
      (set_yanked id yanked message x, rw own refl, flag, text)
  | inr e ↦
      let (w, found, flag, text) =
        find_row-map id yanked message versions v (ground (arith, h, e)) in
      let same = set_yanked-other id yanked message x e in (w, rw (same, e) found, flag, text)
]

find_row-map_other :
    (id : ℕ) (yanked : Bool) (message : Option Text) (versions : List Version) (other : ℕ)
    → (id == other) ≡ false
    → find_row (map (set_yanked id yanked message) versions) other ≡ find_row versions other
unfolding find_row
find_row-map_other id yanked message [] other d = refl
find_row-map_other id yanked message (x ∷ versions) other d =
    let rest = find_row-map_other id yanked message versions other d in
    elim (Bool-cases (x.id == id)) [
      | inl e ↦
          let not_it : (x.id == other) ≡ false = ground (arith, e, d) in
          let not_new : ((set_yanked id yanked message x).id == other) ≡ false =
            ap (λ (n : ℕ). n == other) (set_yanked-id id yanked message x) ∙ not_it in
          rw (not_new, not_it) rest
      | inr e ↦
          rw (set_yanked-other id yanked message x e)
            (ap (λ o. if x.id == other then some x else o) rest)
    ]

write_yank-versions :
    (auth : Authentication) (version : Version) (krate : Crate) (yanked : Bool)
    (message : Option Text) (s : Registry)
    → (write_yank auth version krate yanked message s).versions
      ≡ map (set_yanked version.id yanked message) s.versions
write_yank-versions auth version krate yanked message s =
    elim (Bool-cases (any (is_changed version.id yanked message) s.versions)) [
      | inl e ↦ rw e refl
      | inr e ↦ rw e (sym (unchanged version.id yanked message s.versions e))
    ]

written-ok :
    (r : AppResult (Unit {0})) (s s' : Registry)
    → (written r s s').0 ≡ ok tt
    → (r ≡ ok tt) × ((written r s s').1 ≡ s')
written-ok (err e) s s' h = cc
written-ok (ok tt) s s' h = (refl, refl)

-- Where the update succeeds and the version is in the table, its row has the flag asked for, or the
-- version's where none is given, and the message, and every other version is as before.
pub perform_version_yank_update-find_row :
    (server : Server) (auth : Authentication) (version : Version) (krate : Crate)
    (yanked : Option Bool) (message : Option Text) (s : Registry) (v : Version)
    → (perform_version_yank_update server auth version krate yanked message s).0 ≡ ok tt
    → find_row s.versions version.id ≡ some v
    → ((w : Version) × (find_row
            (perform_version_yank_update server auth version krate yanked message s).1.versions
            version.id
          ≡ some w)
        × (w.yanked ≡ unwrap_or yanked version.yanked)
        × (w.yank_message ≡ message))
      × ((other : ℕ)
          → (version.id == other) ≡ false
          → find_row
              (perform_version_yank_update server auth version krate yanked message s).1.versions
              other
            ≡ find_row s.versions other)
unfolding perform_version_yank_update
perform_version_yank_update-find_row server auth version krate yanked message s v h found =
    let flag = unwrap_or yanked version.yanked in
    let new = write_yank auth version krate flag message s in
    let (allowed, after) = written-ok (may_yank server auth krate s) s new h in
    let rows =
      ap (λ (r : Registry). r.versions) after
      ∙ write_yank-versions auth version krate flag message s in
    rw rows (
      find_row-map version.id flag message s.versions v found,
      λ other d. find_row-map_other version.id flag message s.versions other d,
    )
