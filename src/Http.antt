-- ===== src/Http.antt =====
-- backend/src/common/http/: request ids and the two envelopes of a response.
pub mod Envelope
pub mod Errors
pub mod Hidden
