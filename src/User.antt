-- ===== src/User.antt =====
-- services/user_app: the users, their sign up and their login.
pub mod Email
pub mod Service
pub mod Repository
pub mod Delivery
pub mod Sessions
