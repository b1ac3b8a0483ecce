-- ===== src/Question.antt =====
-- services/question_app: the questions for the matches.
pub mod Service
pub mod Repository
