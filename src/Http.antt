-- ===== src/Http.antt =====
-- src/libs/http: the web server of a node.
pub mod Status
pub mod Method
pub mod Routes
pub mod Router
pub mod Response
pub mod Header
pub mod Parser
pub mod Callback
pub mod Server
mod Tests
