-- ===== src/Database/User.antt =====
-- crates/crates_io_database/src/models/user.rs: the columns of `users` that decide something, and
-- the lookup by id. Ids are the table's serial numbers, so a negative `i32` finds no user.
use crates_io.Prelude.{ℕ, Text, Option, none, some, List, [], ◌∷◌, Bool, ◌==◌, if◌then◌else◌, ℤ}

pub record User : Type 0 where
  pub id : ℕ
  pub gh_id : ℤ
  pub gh_login : Text
  pub gh_encrypted_token : Text
  pub account_lock_reason : Option Text
  pub account_lock_until : Option ℕ
  pub is_admin : Bool

-- `User::find`, on the rows of `users`.
unfoldable pub find : List User → ℕ → Option User
find [] id = none
find (u ∷ users) id = if u.id == id then some u else find users id
