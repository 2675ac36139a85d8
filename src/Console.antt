-- ===== src/Console.antt =====
-- apps/web/src: the web console of the operators, as far as it computes and keeps state.
pub mod Ui
pub mod Slug
pub mod Validation
pub mod Client
pub mod Login
pub mod Dialog
pub mod Fetch
pub mod Pages
