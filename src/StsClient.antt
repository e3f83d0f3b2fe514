-- ===== src/StsClient.antt =====
-- stsclient: the client of the token service. The transport that retries requests.
pub mod Retry
pub mod Tests
