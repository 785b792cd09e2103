-- ===== src/Web.antt =====
-- The web panel, internal/server/web/src: the values of its language, its API client, its screens.
pub mod Value
pub mod Api
pub mod Settled
pub mod Dashboard
pub mod App
pub mod Types
pub mod View
