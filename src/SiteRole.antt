-- ===== src/SiteRole.antt =====
-- The site-role service (src/redundancy/site_role).
pub mod Policy
pub mod Types
pub mod Role
pub mod Sibling
pub mod Takeover
pub mod Frames
pub mod Link
pub mod Cycle
