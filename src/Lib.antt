-- ===== src/Lib.antt =====
-- A verification library for awstools, a set of Go programs around AWS.
--
-- The parts, and the files that model them (paths from the root of the repository):
-- - Common.Arn: common/arn.go. ParseARN is parse_arn, (*ARN).String is arn_string, ReplaceAccountID
--   is replace_account_id.
-- - Common.Config: common/config_values.go. Generate holds GenerateFromMap and the setters, Refresh
--   holds RefreshMap and Refresh, Retries holds RefreshWithRetries. The other tools read their
--   configuration through this part: a map is generated, with its references to secrets as sources,
--   and refreshed, with the sources resolved.
-- - Common.Kms: common/kms.go, which Refresh uses for KMS sources.
-- - Common.Flatten: FlattenMap and its callers in common/utils.go.
-- - Common.Sts: STSFetchIdentityURL of common/sts.go.
-- - Common.Iam: common/iam.go. NewConfig is new_config, AssumeRoleConfig is assume_role_config, and
--   Retrieve of SessionTokenProvider is retrieve.
-- - Common.Entries: maps from strings, as lists of entries.
-- - Lambda: lambda/sign-ssh-key. Ip is ip.go, Environment is environment.go, Signer is ssh.go, and
--   Handler is handler.go, which calls the other three and Common.Arn, Common.Config and Common.Sts.
-- - Workers: the pool of goroutines that aws/dump/resources/job.go and iam/sync-users start, as a step
--   relation. Dump.Jobs.Run applies it.
-- - Dump: aws/dump. Jobs is resources/job.go, Sessions is resources/aws.go, Terraform is terraform.go,
--   and Handler is the handler of main.go, after OpenSessions.
-- - Dump.Reports: the reports of aws/dump/resources, which the jobs run. Pages holds the walk over the
--   pages of the SDK and the ways in which its error is kept, Fallible the reports whose callback may
--   stop, Documents is utils.go. Rds, AutoScaling, Ec2, Route53 and S3 are the files of those names,
--   Arns is acm.go, cloudwatch.go, lambda.go and kms.go.
-- - Dump.Iam: aws/dump/resources/iam.go. Entities holds the reports of users, groups, roles and
--   policies, LastUsed the jobs that they wait for, Authorization the account details.
-- - Dashboard: refresh.go, ecs.go and types.go of ecs/dashboard. Updating holds the steps of
--   updateAccounts and its three workers, with the room of the channels.
-- - SyncUsers: iam/sync-users/main.go; Host holds the files of the host and the commands.
-- - AuthProxy: iam/auth-proxy/main.go; on_response is the function given to OnResponse.
-- - IamSession: iam/session/main.go, with Common.Iam.
-- - RequestSignature: iam/request-ssh-key-signature/main.go, whose requests Lambda.Handler answers.
-- - Deploy: ecs/deploy/main.go, with Common.Arn.
-- - KmsEnv: kms/env/main.go, with Common.Config and Common.Flatten.
-- - Tests: runs at concrete inputs, and each theorem at one of them.
--
-- How the code is modelled. A string is the list of its bytes (Text). A function that returns an error
-- returns a Result; an error that is wrapped keeps its message in front. A nil pointer is none, and a
-- panic is an error of its own. A Go map is the list of its entries in the order in which a loop over
-- it meets them. int and time.Duration
-- are integers, with the conversions to int64 and uint64 written out. The AWS services, the file
-- system, the clock, the random sources and the packages for JSON, gob, base64, secretbox, SSH, URLs
-- and CIDR ranges are fields of the records named World, or arguments. What a theorem needs of them is
-- a hypothesis, such as Common.Kms.RoundTrip.IsFaithful.
--
-- Loops are recursion on the list that they run over. Others count: the retries run max_retries
-- rounds, the slices of the dashboard have as much fuel as there are names and the batches of security
-- groups one more, which is enough since every round takes at least one. The loops that wait for AWS
-- (attach, wait) have the fuel as an argument, and it is enough once it exceeds the round in which the
-- jobs are over, with one for each job, or in which the clock passes the timeout.
--
-- Not modelled: the declarations of flags, what is printed and logged, the tables of services, the
-- download of state files, the HTTP server of the dashboard, the copying of streams, and the tools
-- that make one request.
pub mod Prelude
pub mod Workers
pub mod AuthProxy
pub mod Common
pub mod Deploy
pub mod Lambda
pub mod Dump
pub mod Dashboard
pub mod IamSession
pub mod KmsEnv
pub mod RequestSignature
pub mod SyncUsers
pub mod Tests
