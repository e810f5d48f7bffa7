-- ===== src/Lambda.antt =====
-- lambda/sign-ssh-key: the Lambda function that signs SSH keys for IAM users.
pub mod Ip
pub mod Environment
pub mod Signer
pub mod Handler
