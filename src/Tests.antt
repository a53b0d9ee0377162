-- ===== src/Tests.antt =====
-- Concrete runs of the modelled code, and the theorems at concrete inputs.
mod Wire
mod Transport
mod Secure
mod Messages
mod Routing
mod Session
mod Handlers
mod Commands
mod Products
mod Documents
