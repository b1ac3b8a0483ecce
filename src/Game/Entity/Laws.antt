-- ===== src/Game/Entity/Laws.antt =====
-- Reading back the texts of the game's statuses, categories and difficulties.
use brain_blitz.Prelude.{◌≡◌, ◌⊎◌, inl, inr, refl, List, [], ◌∷◌, map}
use brain_blitz.Game.Entity.{
  GameStatus, initialized, pending, created, started, finished, unknown_status, status_string,
  map_to_game_status, Category, sport, music, tech, unknown, category_string, map_to_category,
  map_from_categories, Difficulty, easy, medium, hard, unknown_difficulty, difficulty_string,
  map_to_difficulty,
}

-- Every status but INITIALIZED is read back from its text, and INITIALIZED is read as UNKNOWN.
pub map_to_game_status_round_trip :
    (s : GameStatus)
    → (map_to_game_status (status_string s) ≡ s)
      ⊎ ((s ≡ initialized) × (map_to_game_status (status_string s) ≡ unknown_status))
unfolding map_to_game_status status_string
map_to_game_status_round_trip initialized = inr (refl, refl)
map_to_game_status_round_trip pending = inl refl
map_to_game_status_round_trip created = inl refl
map_to_game_status_round_trip started = inl refl
map_to_game_status_round_trip finished = inl refl
map_to_game_status_round_trip unknown_status = inl refl

category_round_trip : (c : Category) → map_to_category (category_string c) ≡ c
unfolding map_to_category category_string
category_round_trip sport = refl
category_round_trip music = refl
category_round_trip tech = refl
category_round_trip unknown = refl

-- Any list of categories is read back from its texts.
pub map_from_categories_round_trip :
    (categories : List Category) → map map_to_category (map_from_categories categories) ≡ categories
unfolding map_from_categories
map_from_categories_round_trip [] = refl
map_from_categories_round_trip (c ∷ categories) =
    λ i. category_round_trip c i ∷ map_from_categories_round_trip categories i

-- Every difficulty is read back from its text.
pub map_to_difficulty_round_trip : (d : Difficulty) → map_to_difficulty (difficulty_string d) ≡ d
unfolding map_to_difficulty difficulty_string
map_to_difficulty_round_trip easy = refl
map_to_difficulty_round_trip medium = refl
map_to_difficulty_round_trip hard = refl
map_to_difficulty_round_trip unknown_difficulty = refl
