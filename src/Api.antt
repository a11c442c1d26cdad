-- ===== src/Api.antt =====
-- internal/api: the REST handlers and the login throttle.
pub mod Throttle
pub mod Service
pub mod Auth
pub mod Errors
pub mod Access
pub mod Boards
pub mod Lists
pub mod Cards
pub mod Users
pub mod Credentials
pub mod Login
pub mod Logout
pub mod Usage
pub mod Router
