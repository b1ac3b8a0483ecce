-- ===== src/Lib.antt =====
-- BrainBlitz, a quiz game played by matched users: services that exchange messages over a broker and
-- keep their state in Redis, MongoDB and PostgreSQL. This library models the users' sign up and
-- login, their tokens, the matching of users, the questions, and the playing of a game.
--
-- The parts, and how they interact. A player's websocket message ADD_TO_WAITING_LIST reaches the
-- game service (services/game_app), which publishes a join request. The match service
-- (services/match_app) puts the player on the waiting list of the category, and at each tick of its
-- scheduler makes matches of the users who wait and publishes them. The game service makes a game of
-- each match and announces it; the question service publishes questions for the match, which the
-- game service stores. When all players have sent READY the questions are sent, the answers are
-- scored as they come, and a task ends the game with its leader board.
--
-- Files:
-- - Prelude: library names passed on, lists over native numbers (Lists), Boolean tests (Tests), Go's
--   64-bit int (Int), sort.Slice (Sort), sums over a list in any order (Weights).
-- - Errors: pkg/err_app/errors.go. Contract: contract/event/events.go and the protobuf messages.
-- - Match/Entity, Match/Grouping, Match/Service: services/match_app/service. MatchWaitUsers is
--   collect_waiting, make_matches (sort_waiting, group_members, final_users) and
--   publish_final_users. The service's interfaces are the records Repository and Environment.
-- - Redis: the sorted-set calls of the Redis client, as a record; Redis/Behaviour states what its
--   documentation says of them, as hypotheses.
-- - Match/Repository: services/match_app/repository/match.go over that client, with Room (what
--   another player's entry keeps), Reading, Queues (the queue of each category) and Rounds (a round of
--   the match service over this repository).
-- - Game/Entity, Game/Messages: entity.go, helper.go and param.go of services/game_app/service.
-- - Game/World: what the game service reads and writes, as one record, and the monad of its methods:
--   a result (a value, an error or a panic) and the next world. Outside holds what the process does
--   not decide: which call fails, the clock, the driver's ids.
-- - Game/Score and Game/Time: CalculateScore, over an abstract float64 with laws of IEEE 754, and the
--   operations of package time that are used.
-- - Game/Repository: services/game_app/repository/game.go: Ready (the players who are ready),
--   Questions, Answers, LeaderBoards. Ready/Races and Answers/Races split UpsertReadyPlayer and
--   SavePlayerAnswer into a read and a write, for two calls at a time (Interleaving).
-- - Game/Service: services/game_app/service: Connections (writeMessage, game_lifecycle.go), Answers
--   (answer_processor.go), Matches (match_consumer.go, question_consumer.go), Completion
--   (game_completion.go), Reader (websocket_handler.go).
-- - Game/System: the game service as a whole, as a step relation: a message of a client, an event of
--   the broker or a task that waits. Frame holds what every step keeps, History and Starts what
--   follows for every run.
-- - User/Email: pkg/email. User/Service: services/user_app/service, with the repository, bcrypt and
--   the auth client as the record Environment. User/Repository: services/user_app/repository/user.go,
--   over a table of users; what its columns take, and its unique names, are hypotheses.
--   User/Delivery: services/user_app/delivery/http. User/Sessions: the user service over the auth
--   service, from its client to the validation of a token that Login gave.
-- - Auth/Service: services/auth_app/service, with the JWT and validation libraries as the record
--   Environment. Auth/Client: adapter/auth. Auth/Delivery: services/auth_app/delivery, its gRPC and
--   HTTP handlers.
-- - Question/Service: services/question_app/service. Question/Repository: its repository, over the
--   queries of a database.
-- - Http: what the HTTP handlers share. Match/Delivery: services/match_app/delivery/http.
-- - Tests: concrete parameters and runs.
-- Below each of these, Laws and the modules beside it hold the theorems.
--
-- How code becomes definitions. Loops are structural recursion on the list that they walk, so no
-- fuel is needed. An error is a value, a nil dereference is `panic`. A goroutine is a Task in the
-- world, to run later in any order; goroutines that only start others are run in place. Each access
-- to the map of connections is one step, as under its lock. Integers are 64 bits: int wraps around
-- (Prelude/Int), uint64 ids are natural numbers. A time is in nanoseconds since year 1, in
-- Match/Repository and User/Repository since 1970, and a sorted set's score, which is a time, in
-- whole microseconds. A text that is only written by strconv and read back stands as the integer,
-- but in User/Sessions, where it is the text of a claim; JSON texts stand as their values, and
-- encoding them never fails. The order of an iteration over a map is a parameter. An answer to no
-- question of the game keeps its zero category, an empty text, for which `unknown` stands. Of a
-- request echo's handlers see the headers and the binding of the body, which are arguments.
--
-- Not modelled: the HTTP handlers of the game and question services (one opens a websocket, the other
-- calls a service that is empty), the adapters of the broker, the websocket and the task queue, which
-- call third-party clients, schedulers and subscriptions, logging, configuration, start-up and
-- generated code. A step of Game/System is a whole handler, or one half of SavePlayerAnswer or of
-- UpsertReadyPlayer; handlers that interleave at other calls are not modelled. Timeouts of Redis keys
-- and of contexts are calls that fail, and a call that fails has no effect: one that was applied and
-- whose answer was lost is not modelled.
pub mod Prelude
pub mod Errors
pub mod Contract
pub mod Http
pub mod Redis
pub mod Match
pub mod Game
pub mod User
pub mod Auth
pub mod Question
pub mod Tests
