-- ===== src/Game/Service/Completion/Laws.antt =====
-- Who hears that a game is over, and which connections are left.
use brain_blitz.Prelude.{
  ℕ, ◌+◌, ◌≡◌, refl, ◌∙◌, true, false, Option, none, some, List, [], ◌∷◌, ◌++◌, arith, ltb, ◌==◌,
  push, append_nil, push-append, All,
}
use brain_blitz.Prelude.Int.{pos, int_min_abs}
use brain_blitz.Game.Messages.{ProcessGamePlayerPoint, Payload}
use brain_blitz.Game.World.{World, ok}
use brain_blitz.Game.Service.Connections.{Front, with_connection, write_server_data}
use brain_blitz.Game.Service.Completion.{parse_player_id, deliver}

-- The entries of the players, each of whom has his connection beside him; their ids fit an int64.
abbrev pub AreFor : List ProcessGamePlayerPoint → List (ℕ × ℕ) → Type 0
AreFor [] [] = Unit
AreFor [] (player ∷ players) = ⊥
AreFor (p ∷ points) [] = ⊥
AreFor (p ∷ points) ((id, c) ∷ players) =
    (p.player_id ≡ pos id) × (ltb id int_min_abs ≡ true) × AreFor points players

-- The players have these connections, and no player stands twice.
abbrev pub AreConnected : (ℕ → Option ℕ) → List (ℕ × ℕ) → Type 0
AreConnected connections [] = Unit
AreConnected connections ((id, c) ∷ players) =
    (connections id ≡ some c)
    × All (λ player. (player.0 == id) ≡ false) players
    × AreConnected connections players

abbrev pub without : List (ℕ × ℕ) → (ℕ → Option ℕ) → ℕ → Option ℕ
without [] connections = connections
without ((id, c) ∷ players) connections = without players (with_connection connections id none)

-- What is written to the connections.
abbrev pub copies : Payload → List (ℕ × ℕ) → List (Option ℕ × Payload)
copies payload [] = []
copies payload ((id, c) ∷ players) = (some c, payload) ∷ copies payload players

abbrev pub connections_of : List (ℕ × ℕ) → List ℕ
connections_of [] = []
connections_of ((id, c) ∷ players) = c ∷ connections_of players

AreConnected-without :
    (connections : ℕ → Option ℕ) (id : ℕ) (players : List (ℕ × ℕ))
    → All (λ player. (player.0 == id) ≡ false) players
    → AreConnected connections players
    → AreConnected (with_connection connections id none) players
AreConnected-without connections id [] fresh h = h
AreConnected-without connections id ((j, c) ∷ players) fresh h =
    (rw fresh.0 h.0, h.1, AreConnected-without connections id players fresh.1 h.2)

-- The world after the message and the end of one connection.
abbrev delivered : Payload → ℕ → ℕ → World → World
delivered payload id c w = record w {
  tick = w.tick + 1;
  sent = push w.sent (some c, payload);
  connections = with_connection w.connections id none;
  closed = push w.closed c;
}

module _ {Bytes : Type 0} (front : Front Bytes) where
  deliver_step :
      (writes : (c n : ℕ) → front.write (some c) n ≡ ok tt) (payload : Payload)
      (p : ProcessGamePlayerPoint) (points : List ProcessGamePlayerPoint) (id c : ℕ)
      → p.player_id ≡ pos id
      → ltb id int_min_abs ≡ true
      → (w : World) → w.connections id ≡ some c
      → deliver front payload (p ∷ points) w
        ≡ deliver front payload points (delivered payload id c w)
  unfolding deliver write_server_data parse_player_id
  deliver_step writes payload p points id c is_id fits w connected =
      ground (arith, is_id, fits, connected, writes c w.tick)

  -- Where every write to an open connection succeeds, and the leader board is of players who are
  -- all connected, each of them once, the end of a game reaches every one of them: the same text
  -- is written once to each connection, in the order of the leader board, each connection is
  -- closed, and exactly these players are no longer connected.
  pub deliver_lem :
      (writes : (c n : ℕ) → front.write (some c) n ≡ ok tt) (payload : Payload)
      (points : List ProcessGamePlayerPoint) (players : List (ℕ × ℕ))
      → AreFor points players
      → (w : World) → AreConnected w.connections players
      → let (r, w') = deliver front payload points w in
        (r ≡ ok tt)
        × (w'.sent ≡ w.sent ++ copies payload players)
        × (w'.closed ≡ w.closed ++ connections_of players)
        × (w'.connections ≡ without players w.connections)
  unfolding deliver write_server_data parse_player_id
  deliver_lem writes payload [] [] are w h = (refl, append_nil w.sent, append_nil w.closed, refl)
  deliver_lem writes payload [] (player ∷ players) are w h = absurd are
  deliver_lem writes payload (p ∷ points) [] are w h = absurd are
  deliver_lem writes payload (p ∷ points) ((id, c) ∷ players) are w h =
      let rest =
        deliver_lem writes payload points players are.2 (delivered payload id c w)
          (AreConnected-without w.connections id players h.1 h.2) in
      rw (deliver_step writes payload p points id c are.0 are.1 w h.0) (
        rest.0,
        rest.1 ∙ push-append w.sent (some c, payload) (copies payload players),
        rest.2 ∙ push-append w.closed c (connections_of players),
        rest.3,
      )
