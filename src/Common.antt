-- ===== src/Common.antt =====
-- The packages of common/: ARNs, configuration values, KMS envelopes, identity URLs.
pub mod Entries
pub mod Arn
pub mod Config
pub mod Iam
pub mod Kms
pub mod Flatten
pub mod Sts
