-- ===== src/Tenants.antt =====
-- features/tenants: the tenants of the console, their slugs and generation 1 of their specification.
pub mod Types
pub mod Slug
pub mod Preview
pub mod Server
pub mod Shapes
pub mod Creates
pub mod Pages
mod Tests
