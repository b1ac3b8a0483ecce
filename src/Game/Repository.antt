-- ===== src/Game/Repository.antt =====
-- services/game_app/repository/game.go.
pub mod Ready
pub mod Questions
pub mod Answers
pub mod LeaderBoards
