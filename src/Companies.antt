-- ===== src/Companies.antt =====
-- app/modules/companies/ and app/modules/admin/: the onboarding and the status of companies.
pub mod Onboarding
pub mod Admin
pub mod Provisioning
pub mod Members
pub mod Setup
mod Tests
