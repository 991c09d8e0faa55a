-- ===== src/Utils.antt =====
-- packages/automated_actions_utils/automated_actions_utils: what the tasks use to find their
-- targets and to act on them.
pub mod ExternalResource
pub mod JobWait
pub mod Vault
pub mod Gql
pub mod Cluster
pub mod Job
