-- ===== src/Hosts.antt =====
-- apps/api/src/modules/hosts: the API of the host agents, and that of the operators.
pub mod Common
pub mod Registration
pub mod Queue
pub mod Reconcile
pub mod Admin
pub mod Views
