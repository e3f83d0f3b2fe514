-- ===== src/TokenMint.antt =====
-- tokenmint: short-lived tokens that are minted from a credential pair. The descriptor names a
-- profile, the profile says how a grant is made, the minter caches and limits the grants.
pub mod Types
pub mod Descriptor
pub mod Profile
pub mod Grant
pub mod Minter
pub mod Tests
