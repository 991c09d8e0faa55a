-- ===== src/Worker.antt =====
-- packages/automated_actions/automated_actions/celery: the tasks that carry out the actions.
pub mod Task
pub mod Delivery
pub mod Rds
pub mod Flush
pub mod Openshift
