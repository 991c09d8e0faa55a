-- ===== src/Db.antt =====
-- packages/automated_actions/automated_actions/db/models: the two DynamoDB tables.
pub mod Dynamo
pub mod Schema
pub mod World
pub mod Table
pub mod Actions
pub mod Users
pub mod Memory
