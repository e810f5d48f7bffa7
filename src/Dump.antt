-- ===== src/Dump.antt =====
-- aws/dump: the listing of AWS resources, and its comparison with terraform states.
pub mod Jobs
pub mod Sessions
pub mod Reports
pub mod Iam
pub mod Terraform
pub mod Handler
