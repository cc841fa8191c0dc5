-- ===== src/Owners/Base.antt =====
-- src/controllers/krate/owners.rs: the server and the rows that a request on owners reads and writes.
use crates_io.Prelude.{ℕ, Text, Option, List, Result}
use crates_io.Errors.{AppError}
use crates_io.Database.User.{User}
use crates_io.Database.Krate.{Crate}
use crates_io.Database.Owners.{CrateOwner, Team, Email}
use crates_io.Database.Invitations.{CrateOwnerInvitation}
use crates_io.Github.{GitHubClient}
use crates_io.Auth.{Conn}

-- The server: its configuration, and what it calls.
pub record Server : Type 0 where
  pub sha256 : Text → Text
  pub allowed_origins : List Text
  pub lower : Text → Text
  pub to_lowercase : Text → Text
  pub decrypt : Text → Option Text
  pub github : GitHubClient
  pub ownership_invitations_expiration : ℕ
  -- The database's random token for a new invitation, by the invited user and the crate.
  pub new_token : ℕ → ℕ → Text

pub record State : Type 0 where
  pub conn : Conn
  pub emails : List Email
  pub crates : List Crate
  pub teams : List Team
  -- The sequence of the ids of `teams`.
  pub next_team_id : ℕ
  pub crate_owners : List CrateOwner
  pub crate_owner_invitations : List CrateOwnerInvitation

pub data NewOwnerInvite : Type 0 where
  user : User → Text → NewOwnerInvite
  team : Team → NewOwnerInvite

pub data OwnerAddError : Type 0 where
  app_error : AppError → OwnerAddError
  already_invited : User → OwnerAddError

abbrev pub AddResult : Type 0
AddResult = Result NewOwnerInvite OwnerAddError × State
