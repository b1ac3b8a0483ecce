-- ===== src/Match.antt =====
-- services/match_app: the waiting lists and the making of matches.
pub mod Entity
pub mod Service
pub mod Repository
pub mod Delivery
pub mod Grouping
