-- ===== src/Trustpub.antt =====
-- crates/crates_io_trustpub/src/access_token.rs: the short-lived tokens of Trusted Publishing. A raw
-- token has ASCII characters only, so its bytes are its code points.
pub mod AccessToken
pub mod RoundTrip
mod Tests
