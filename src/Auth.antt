-- ===== src/Auth.antt =====
-- services/auth_app: the tokens, and adapter/auth, the client of that service.
pub mod Service
pub mod Client
pub mod Delivery
