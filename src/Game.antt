-- ===== src/Game.antt =====
-- services/game_app: the games, their questions and answers, and the messages of the players.
pub mod Entity
pub mod Time
pub mod Score
pub mod Messages
pub mod World
pub mod Interleaving
pub mod Repository
pub mod Service
pub mod System
