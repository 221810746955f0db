-- ===== src/Dsl.antt =====
-- features/authz-model: the parsed form of the authorization-model language.
pub mod Types
pub mod Parse
pub mod References
pub mod Closed
pub mod Summary
pub mod Depth
pub mod Ends
pub mod Tokens
pub mod Lexemes
pub mod Joined
pub mod Lines
pub mod Changes
mod Tests
