-- ===== src/Game/Service.antt =====
-- services/game_app/service: the game's side of the players' connections and of the broker. The
-- values that the service encodes in JSON always have an encoding. The read-write lock around the
-- map of connections makes each access to it one step, as it is here.
pub mod Connections
pub mod Answers
pub mod Matches
pub mod Completion
pub mod Reader
