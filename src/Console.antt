-- ===== src/Console.antt =====
-- The managers' console: what a role permits (src/lib/authorization.ts), the listing and the clean-up of
-- jobs (src/app/api/jobs/route.ts), and the server actions of src/app/actions.ts.
pub mod Roles
pub mod Like
pub mod Listing
pub mod Cleanup
pub mod Laws
pub mod Pages
pub mod Removal
pub mod Actions
pub mod TestPrints
pub mod Reprints
pub mod Deletion
mod Tests
