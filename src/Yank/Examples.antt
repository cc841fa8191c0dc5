-- ===== src/Yank/Examples.antt =====
-- A crate with two versions, an owner, and a registry that holds them.
use crates_io.Prelude.{true, false, none, some, [], ◌∷◌, Text, codes, map, ok, pos, ascii_lowercase}
use crates_io.Database.User.{User}
use crates_io.Database.Krate.{Crate}
use crates_io.Database.Owners.{CrateOwner, user_kind}
use crates_io.Github.{GitHubClient}
use crates_io.Auth.{Parts}
use crates_io.Owners.Base.{Server}
use crates_io.RateLimiter.{RateLimiter}
use crates_io.Yank.{Version, Registry}

abbrev pub ann : User
ann = record {
  id = 3;
  gh_id = pos 30;
  gh_login = codes "ann";
  gh_encrypted_token = [];
  account_lock_reason = none;
  account_lock_until = none;
  is_admin = false;
}

-- Ann is a member of the one team of the one organization.
abbrev github : GitHubClient
github = record {
  team_by_name = λ org name token. ok (record { id = 70; name = none; organization_id = 7 });
  team_membership = λ org team login token. ok (some (record { state = codes "active" }));
  org_membership = λ org login token. ok none;
  org_by_name = λ org token. ok (record { id = 7; avatar_url = none });
}

abbrev lower : Text → Text
lower s = map ascii_lowercase s

abbrev pub server : Server
server = record {
  sha256 = λ s. s;
  allowed_origins = [];
  lower = lower;
  to_lowercase = lower;
  decrypt = λ s. some s;
  github = github;
  ownership_invitations_expiration = 100;
  new_token = λ user krate. codes "secret";
}

abbrev pub session : Text → Parts
session id = record { origins = []; authorization = none; session_user_id = some id }

abbrev pub krate : Crate
krate = record {
  id = 1;
  name = codes "My-Crate";
  description = none;
  homepage = none;
  documentation = none;
  readme = none;
  repository = none;
  max_upload_size = none;
  max_features = none;
  trustpub_only = false;
}

abbrev pub version : Version
version = record {
  id = 5;
  crate_id = 1;
  num = codes "1.0.0";
  num_no_build = codes "1.0.0";
  created_at = 0;
  features = [];
  yanked = false;
  license = none;
  crate_size = pos 10;
  published_by = some 3;
  checksum = [];
  links = none;
  rust_version = none;
  has_lib = true;
  lib_name = none;
  bin_names = [];
  yank_message = none;
  edition = none;
  description = none;
  homepage = none;
  documentation = none;
  repository = none;
  categories = [];
  keywords = [];
  trustpub_data = none;
}

abbrev pub older : Version
older = record version { id = 4; num = codes "0.9.0" }

abbrev owner_row : CrateOwner
owner_row = record {
  crate_id = 1;
  owner_id = 3;
  created_by = 3;
  owner_kind = user_kind;
  deleted = false;
}

abbrev pub registry : Registry
registry = record {
  rows = record {
    conn = record { users = ann ∷ []; api_tokens = []; read_only = false };
    emails = [];
    crates = krate ∷ [];
    teams = [];
    next_team_id = 1;
    crate_owners = owner_row ∷ [];
    crate_owner_invitations = [];
  };
  versions = older ∷ version ∷ [];
  version_owner_actions = [];
  jobs = [];
  buckets = [];
}

abbrev pub limiter : RateLimiter
limiter = record { config = []; overrides = [] }

abbrev pub no_owner : Registry
no_owner = record registry { rows = record registry.rows { crate_owners = [] } }
