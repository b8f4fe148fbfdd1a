-- ===== src/Verify.antt =====
-- crates/vajra-verify: the verifier of reports, which shares no code with the program that writes them.
pub mod Chain
pub mod Base64
pub mod Certificate
pub mod Envelope
pub mod Examples
