-- ===== src/Redaction.antt =====
-- jsonredact/redact.go and logutil/redact.go: what is masked before a document or a log record
-- leaves the service.
pub mod Keys
pub mod Json
pub mod Log
pub mod Document
mod Tests
