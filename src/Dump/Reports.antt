-- ===== src/Dump/Reports.antt =====
-- The reports of aws/dump/resources: what they share, and a module for each service.
pub mod Pages
pub mod Documents
pub mod Fallible
pub mod Arns
pub mod Ec2
pub mod AutoScaling
pub mod Rds
pub mod Route53
pub mod S3
