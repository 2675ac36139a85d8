-- ===== src/Tenants.antt =====
-- apps/api/src/modules/tenants: the life of a tenant as the control plane sees it.
pub mod Create
pub mod Lifecycle
pub mod Routes
pub mod Views
