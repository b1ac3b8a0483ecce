-- ===== src/Game/Service/Reader/Laws.antt =====
-- What a player's messages do to the connections and to the queue.
use brain_blitz.Prelude.{ℕ, String, ◌≡◌, ◌⊎◌, refl, inl, inr, none, List, [], ◌∷◌, push, ==_self}
use brain_blitz.Game.Score.{Floats}
use brain_blitz.Game.World.{World, Outside, Config, Result, ok, err, panic, attempt, ◌>>◌}
use brain_blitz.Game.Service.Connections.{Front}
use brain_blitz.Game.Service.Reader.{read_message, serve}

-- What is left of a connection: a panic, or a world in which it is closed and forgotten.
abbrev pub IsOver : ℕ → ℕ → Result (Unit {0}) × World → Type 0
IsOver id conn (r, w) =
    (r ≡ panic)
    ⊎ ((r ≡ ok tt)
        × (w.connections id ≡ none)
        × ((before : List ℕ) × (w.closed ≡ push before conn)))

after_attempt :
    (id conn : ℕ) (k : World → Result (Unit {0}) × World) (p : Result (Unit {0}) × World)
    → ((w : World) → IsOver id conn (k w))
    → IsOver id conn ((attempt (λ _. p) >> k) p.1)
after_attempt id conn k (ok a, w) h = h w
after_attempt id conn k (err e, w) h = h w
after_attempt id conn k (panic, w) h = inl refl

module _ {Bytes : Type 0} (front : Front Bytes) (out : Outside) (f : Floats) (config : Config) where
  -- Whatever the player sends, and whichever of his messages fail, when the reading of his messages
  -- ends without a panic his connection is the last one that was closed, and he is no longer
  -- connected.
  pub serve_cleans_up :
      (id conn : ℕ) (messages : List String) (w : World)
      → IsOver id conn (serve front out f config id conn messages w)
  unfolding serve
  serve_cleans_up id conn [] w = inr (refl, rw (==_self id) refl, (w.closed, refl))
  serve_cleans_up id conn (message ∷ messages) w =
      after_attempt id conn (serve front out f config id conn messages)
        (read_message front out f config id conn message w) (serve_cleans_up id conn messages)
