-- ===== src/Lib.antt =====
-- The registry server of crates.io, in the parts that decide: which names are accepted, who a
-- request comes from and what it may do, how often, and which versions and rights result. Each
-- module says which source files it models.
-- A crate has owners, individual users and GitHub teams. Owners (src/controllers/krate/owners.rs,
-- src/controllers/crate_owner_invitation.rs) is the requests that change them: a request passes
-- Auth (src/auth.rs), asks Rights (src/controllers/helpers/authorization.rs) for the rights of
-- its user, and writes the rows of Database.Owners and Database.Invitations
-- (crates/crates_io_database/src/models). Database.Token and Database.User hold the rows that
-- Auth reads. RateLimiter (src/rate_limiter.rs) bounds how often a user publishes or yanks.
-- Validation (crates/crates_io_validation) says which names exist at all.
-- A table is the list of its rows, a query a function on it, and a transaction that fails gives
-- back the rows that it began with. Each handler takes the time of the request, and one request
-- runs after another: locks and concurrent transactions are not modelled. Functions outside the
-- repository are parameters: SHA-256, the decryption of GitHub tokens, the GitHub client (a
-- record of its methods), lower case in Rust and in the database, Unicode's identifier tables,
-- and random tokens. All loops are structural recursion but two: the loop of a worker runs on
-- fuel, one more than the jobs cost together by a measure that the jobs a job enqueues stay
-- below, since each turn removes a job or makes it wait for two minutes at least; and the split
-- of features has the source's own limit of 100 iterations, each of which moves a feature. Ids
-- and times are natural numbers; a time is in microseconds, in Worker in seconds.
-- Yank (src/controllers/version/yank.rs and update.rs) puts the parts together: a request is
-- authenticated, counted by RateLimiter, tried against Rights, and then writes the version, an
-- action and the jobs that follow. Publish (src/controllers/krate/publish.rs) does so for a new
-- crate or version: it reads the body, checks name and manifest with Validation, authenticates a
-- user with Auth or a token of Trustpub (crates/crates_io_trustpub), counts the request with
-- RateLimiter, and writes crate, version, dependencies, labels and jobs in one transaction under
-- the Rights of the user; the tarball is uploaded in it, and stays if the database refuses the
-- jobs behind it. Worker (crates/crates_io_worker) is the queue that takes the jobs and the loop
-- that runs them, DefaultVersions (crates/crates_io_database/src/models/default_versions.rs) the
-- job that follows a yank, and Index (crates/crates_io_index/features.rs) the split of features
-- for the index. Tokens (src/controllers/token.rs, src/controllers/github/secret_scanning.rs)
-- creates, lists and revokes the API tokens that Auth finds, on a user's request or because
-- GitHub reports one, and Deletion (src/controllers/krate/delete.rs) removes a crate with the
-- rows that refer to it and keeps its name back from Publish. History is a relation on the
-- tables: the requests to publish, yank and delete, in any order. Not modelled are pagination,
-- the logs of the CDN and the files of the index; nor, because they are input and output or the
-- work of libraries, the signature of GitHub's reports, search, storage, e-mail, sessions and
-- OAuth, metrics and the command-line tools.
pub mod Prelude
pub mod Validation
pub mod Errors
pub mod Database
pub mod Auth
pub mod RateLimiter
pub mod Github
pub mod Rights
pub mod Owners
pub mod Yank
pub mod Trustpub
pub mod Publish
pub mod Worker
pub mod DefaultVersions
pub mod Index
pub mod Tokens
pub mod Deletion
pub mod History
