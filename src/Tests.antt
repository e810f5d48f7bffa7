-- ===== src/Tests.antt =====
-- Runs of the modelled code at concrete inputs, and the theorems applied there.
mod Arn
mod Kms
mod Config
mod Flatten
mod Sts
mod Lambda
mod Handler
mod Workers
mod Dump
mod Dashboard
mod Reports
mod AuthProxy
mod Deploy
mod KmsEnv
mod Iam
mod SyncUsers
