-- ===== src/Game/Repository/LeaderBoards/Laws.antt =====
-- What the leader board says of the answers that it is made of. `scored_by` and `entries_of` do not
-- depend on the order of a board's entries, and so not on Go's iteration over a map.
use mathlib.Core.List.{Perm}
use brain_blitz.Prelude.Weights.{weigh, weigh-Perm}
use brain_blitz.Prelude.{
  ℕ, ◌+◌, ◌<◌, ◌≡◌, refl, sym, ◌∙◌, inl, inr, ap, Bool, true, false, ◌||◌, List, [], ◌∷◌, arith,
  ◌==◌, if◌then◌else◌, Bool-cases, All, any,
}
use brain_blitz.Prelude.Int.{pos, pos_part, add_int, add_int_exact, int_min_abs, signed64}
use brain_blitz.Prelude.Sort.{IsSorted, sort_slice-perm, sort_slice-IsSorted}
use brain_blitz.Game.Entity.{PlayerId, PlayerAnswer, PlayerPoint}
use brain_blitz.Game.Repository.Ready.{eq_int}
use brain_blitz.Game.Repository.LeaderBoards.{
  add_answer, add_answers, add_player, add_players, more_points, player_points,
}

-- The points of the answers of a player.
abbrev pub points_of : PlayerId → List PlayerAnswer → ℕ
points_of p = weigh (λ a. if eq_int a.player_id p then pos_part a.point else 0)

-- The points that a board has for a player, in all its entries.
abbrev pub scored_by : PlayerId → List PlayerPoint → ℕ
scored_by p = weigh (λ e. if eq_int e.player_id p then pos_part e.point else 0)

-- How many entries a board has for a player.
abbrev pub entries_of : PlayerId → List PlayerPoint → ℕ
entries_of p = weigh (λ e. if eq_int e.player_id p then 1 else 0)

abbrev pub all_points : List PlayerAnswer → ℕ
all_points = weigh (λ a. pos_part a.point)

abbrev board_points : List PlayerPoint → ℕ
board_points = weigh (λ e. pos_part e.point)

abbrev pub HasNoNegative : List PlayerAnswer → Type 0
HasNoNegative = All (λ a. a.point ≡ pos (pos_part a.point))

abbrev IsNonnegative : List PlayerPoint → Type 0
IsNonnegative = All (λ e. e.point ≡ pos (pos_part e.point))

abbrev pub has_answered : PlayerId → List PlayerAnswer → Bool
has_answered p = any (λ a. eq_int a.player_id p)

abbrev pub is_player : PlayerId → List ℕ → Bool
is_player p = any (λ u. eq_int (signed64 u) p)

add_points_lem :
    (e : PlayerPoint) (a : PlayerAnswer)
    → e.point ≡ pos (pos_part e.point)
    → a.point ≡ pos (pos_part a.point)
    → pos_part e.point + pos_part a.point < int_min_abs
    → add_int e.point a.point ≡ pos (pos_part e.point + pos_part a.point)
add_points_lem e a he ha h = rw (he, ha) (add_int_exact (pos_part e.point) (pos_part a.point) h)

add_answer_points :
    (a : PlayerAnswer) (board : List PlayerPoint)
    → a.point ≡ pos (pos_part a.point)
    → IsNonnegative board
    → board_points board + pos_part a.point < int_min_abs
    → IsNonnegative (add_answer a board)
      × (board_points (add_answer a board) ≡ board_points board + pos_part a.point)
unfolding add_answer
add_answer_points a [] ha hb h = ((ha, tt), omega arith)
add_answer_points a (e ∷ board) ha hb h = elim (Bool-cases (eq_int e.player_id a.player_id)) [
  | inl t ↦
      let q = add_points_lem e a hb.0 ha (omega arith) in
      rw t ((q ∙ ap (λ z. pos (pos_part z)) (sym q), hb.1), omega (arith, ap pos_part q))
  | inr f ↦
      let ih = add_answer_points a board ha hb.1 (omega arith) in
      rw f ((hb.0, ih.0), omega (arith, ih.1))
]

add_answer_scored :
    (a : PlayerAnswer) (board : List PlayerPoint)
    → a.point ≡ pos (pos_part a.point)
    → IsNonnegative board
    → board_points board + pos_part a.point < int_min_abs
    → (p : PlayerId)
    → scored_by p (add_answer a board)
      ≡ (if eq_int a.player_id p then pos_part a.point else 0) + scored_by p board
unfolding add_answer
add_answer_scored a [] ha hb h p = omega arith
add_answer_scored a (e ∷ board) ha hb h p = ground (
  arith,
  add_points_lem e a hb.0 ha (omega arith),
  add_answer_scored a board ha hb.1 (omega arith) p,
)

-- An entry is made where there is none.
at_least_one : Bool → ℕ → ℕ
at_least_one b n = if b then (if n == 0 then 1 else n) else n

add_answer_entries :
    (a : PlayerAnswer) (p : PlayerId) (board : List PlayerPoint)
    → entries_of p (add_answer a board) ≡ at_least_one (eq_int a.player_id p) (entries_of p board)
unfolding add_answer at_least_one
add_answer_entries a p [] = ground arith
add_answer_entries a p (e ∷ board) = ground (arith, add_answer_entries a p board)

add_player_entries :
    (q p : PlayerId) (board : List PlayerPoint)
    → entries_of p (add_player q board) ≡ at_least_one (eq_int q p) (entries_of p board)
unfolding add_player at_least_one
add_player_entries q p [] = ground arith
add_player_entries q p (e ∷ board) = ground (arith, add_player_entries q p board)

add_player_scored :
    (q p : PlayerId) (board : List PlayerPoint)
    → scored_by p (add_player q board) ≡ scored_by p board
unfolding add_player
add_player_scored q p [] = ground arith
add_player_scored q p (e ∷ board) = ground (arith, add_player_scored q p board)

at_least_one-or : (b c : Bool) (n : ℕ) → at_least_one b (at_least_one c n) ≡ at_least_one (c || b) n
unfolding at_least_one
at_least_one-or b c n = ground arith

or_any : (b c : Bool) → (b || c) ≡ (if b then true else c)
or_any true c = refl
or_any false c = refl

add_answers_entries :
    (answers : List PlayerAnswer) (p : PlayerId) (board : List PlayerPoint)
    → entries_of p (add_answers answers board)
      ≡ at_least_one (has_answered p answers) (entries_of p board)
unfolding add_answers at_least_one
add_answers_entries [] p board = refl
add_answers_entries (a ∷ answers) p board =
    ground (arith, add_answers_entries answers p (add_answer a board), add_answer_entries a p board)

add_players_entries :
    (players : List ℕ) (p : PlayerId) (board : List PlayerPoint)
    → entries_of p (add_players players board)
      ≡ at_least_one (is_player p players) (entries_of p board)
unfolding add_players at_least_one
add_players_entries [] p board = refl
add_players_entries (u ∷ players) p board = ground (
  arith,
  add_players_entries players p (add_player (signed64 u) board),
  add_player_entries (signed64 u) p board,
)

add_answers_scored :
    (answers : List PlayerAnswer) (board : List PlayerPoint)
    → HasNoNegative answers
    → IsNonnegative board
    → board_points board + all_points answers < int_min_abs
    → (p : PlayerId)
    → scored_by p (add_answers answers board) ≡ points_of p answers + scored_by p board
unfolding add_answers
add_answers_scored [] board ha hb h p = omega arith
add_answers_scored (a ∷ answers) board ha hb h p =
    let (hb', e) = add_answer_points a board ha.0 hb (omega arith) in
    omega (
      arith,
      add_answers_scored answers (add_answer a board) ha.1 hb' (omega (arith, e)) p,
      add_answer_scored a board ha.0 hb (omega arith) p,
    )

add_players_scored :
    (players : List ℕ) (p : PlayerId) (board : List PlayerPoint)
    → scored_by p (add_players players board) ≡ scored_by p board
unfolding add_players
add_players_scored [] p board = refl
add_players_scored (u ∷ players) p board =
    add_players_scored players p (add_player (signed64 u) board)
    ∙ add_player_scored (signed64 u) p board

module _ (iteration : List PlayerPoint → List PlayerPoint)
    (any_order : (l : List PlayerPoint) → Perm (iteration l) l) where
  unsorted-weigh :
      (w : PlayerPoint → ℕ) (answers : List PlayerAnswer) (players : List ℕ)
      → weigh w (player_points iteration answers players)
        ≡ weigh w (add_players players (add_answers answers []))
  unfolding player_points
  unsorted-weigh w answers players =
      weigh-Perm w (sort_slice-perm more_points _) ∙ weigh-Perm w (any_order _)

  -- Where no answer has negative points and all points together are less than 2^63, the leader
  -- board has for every player exactly the points of his answers, in any order of iteration.
  pub leader_board_points :
      (answers : List PlayerAnswer) (players : List ℕ)
      → HasNoNegative answers
      → all_points answers < int_min_abs
      → (p : PlayerId) → scored_by p (player_points iteration answers players) ≡ points_of p answers
  leader_board_points answers players ha h p = omega (
    arith,
    unsorted-weigh _ answers players,
    add_players_scored players p (add_answers answers []),
    add_answers_scored answers [] ha tt (omega (arith, h)) p,
  )

  -- The leader board has one entry for each player of the game and for each other player who has
  -- answered, and none for anyone else, in any order of iteration.
  pub leader_board_entries :
      (answers : List PlayerAnswer) (players : List ℕ) (p : PlayerId)
      → entries_of p (player_points iteration answers players)
        ≡ (if has_answered p answers || is_player p players then 1 else 0)
  unfolding at_least_one
  leader_board_entries answers players p = ground (
    arith,
    unsorted-weigh (λ e. if eq_int e.player_id p then 1 else 0) answers players,
    add_players_entries players p (add_answers answers []),
    add_answers_entries answers p [],
  )

-- The leader board goes from the most points to the least, in any order of iteration.
pub leader_board-IsSorted :
    (iteration : List PlayerPoint → List PlayerPoint) (answers : List PlayerAnswer)
    (players : List ℕ)
    → IsSorted more_points (player_points iteration answers players)
unfolding player_points more_points
leader_board-IsSorted iteration answers players =
    sort_slice-IsSorted more_points (λ x y h. ground arith) (λ x y z h k. ground arith)
      (iteration (add_players players (add_answers answers [])))
