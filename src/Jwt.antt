-- ===== src/Jwt.antt =====
-- jwtx: keys as JSON Web Keys, and the verification of tokens.
pub mod Base64
pub mod Jwk
pub mod Remote
pub mod Verify
pub mod Sign
mod Tests
