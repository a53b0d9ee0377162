-- ===== src/Handlers.antt =====
-- src/routing/events/handlers: the handlers of single messages.
pub mod Encryption
pub mod Logon
pub mod Products
pub mod ProductInfo
