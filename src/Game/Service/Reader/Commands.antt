-- ===== src/Game/Service/Reader/Commands.antt =====
-- What the commands of a player do, error branches included.
use brain_blitz.Prelude.{
  ℕ, ◌+◌, String, ◌≡◌, inl, inr, Bool, true, false, Option, none, some, List, [], ◌∷◌, ◌++◌, arith,
  push, push-append, if◌then◌else◌, Bool-cases, Option-cases,
}
use brain_blitz.Errors.{GoError}
use brain_blitz.Contract.{game_v1_join_match_queue_requested}
use brain_blitz.Game.Entity.{
  map_to_category, initialized, map_waiting_list_request_to_proto_message,
}
use brain_blitz.Game.Messages.{
  ProcessGameMessageResponse, Payload, error, added_to_waiting_list, response, message_payload,
}
use brain_blitz.Game.Score.{Floats}
use brain_blitz.Game.World.{World, Outside, Config, ok, save_user_status}
use brain_blitz.Game.Service.Connections.{Front, write_server_data, save_users_game_status}
use brain_blitz.Game.Service.Reader.{is_unknown, on_add_to_waiting_list}

abbrev to : ℕ → ProcessGameMessageResponse → Option ℕ × Payload
to conn r = (some conn, message_payload r)

abbrev refused : ℕ → Option ℕ × Payload
refused conn = to conn (response false error "invalid category" "")

abbrev undelivered : ℕ → Option ℕ × Payload
undelivered conn = to conn (response false error "internal server error" "")

abbrev joined : ℕ → Option ℕ × Payload
joined conn = to conn (response true added_to_waiting_list "added to waiting list successfully" "")

-- What a player who asks to join the queue is told.
abbrev pub join_replies : ℕ → (unknown_category broker_failed : Bool) → List (Option ℕ × Payload)
join_replies conn true true = refused conn ∷ undelivered conn ∷ joined conn ∷ []
join_replies conn true false = refused conn ∷ joined conn ∷ []
join_replies conn false true = undelivered conn ∷ joined conn ∷ []
join_replies conn false false = joined conn ∷ []

abbrev pub has_failed : Option GoError → Bool
has_failed none = false
has_failed (some e) = true

-- The call in which the broker is asked: a refusal is written before.
abbrev pub publish_tick : Bool → ℕ → ℕ
publish_tick unknown_category tick = if unknown_category then tick + 1 else tick

module _ {Bytes : Type 0} (front : Front Bytes) (out : Outside) (f : Floats) (config : Config) where
  -- Where the writes succeed, a request to join the queue ends with the reply that it succeeded,
  -- whatever the category is and whether or not the broker took it: an unknown category and a
  -- broker that fails are reported before, each with its own reply. The request reaches the broker
  -- unless the broker fails, with an unknown category too, and the player's status is to be saved.
  pub join_always_succeeds :
      (writes : (c n : ℕ) → front.write (some c) n ≡ ok tt) (id conn : ℕ) (category : String)
      (w : World)
      → let bad = is_unknown (map_to_category category) in
        let failed = has_failed (out.fault (publish_tick bad w.tick)) in
        let request = map_waiting_list_request_to_proto_message id category in
        let (r, w') = on_add_to_waiting_list front out f config id conn category w in
        (r ≡ ok tt)
        × (w'.sent ≡ w.sent ++ join_replies conn bad failed)
        × (w'.published ≡ (
            if failed
            then w.published
            else push w.published (
              game_v1_join_match_queue_requested,
              if front.can_marshal request then some request else none,
            )))
        × (w'.tasks ≡ push w.tasks (save_user_status id initialized))
  unfolding on_add_to_waiting_list write_server_data save_users_game_status
  join_always_succeeds writes id conn category w =
      elim (Bool-cases (is_unknown (map_to_category category))) [
        | inl bad ↦ elim (Option-cases (out.fault (w.tick + 1))) [
          | inl reached ↦ ground (
            arith,
            bad,
            reached,
            writes conn w.tick,
            writes conn (w.tick + 1 + 1),
            push-append w.sent (refused conn) (joined conn ∷ []),
          )
          | inr (e, failed) ↦ ground (
            arith,
            bad,
            failed,
            writes conn w.tick,
            writes conn (w.tick + 1 + 1),
            writes conn (w.tick + 1 + 1 + 1),
            push-append (push w.sent (refused conn)) (undelivered conn) (joined conn ∷ []),
            push-append w.sent (refused conn) (undelivered conn ∷ joined conn ∷ []),
          )
        ]
        | inr good ↦ elim (Option-cases (out.fault w.tick)) [
          | inl reached ↦ ground (arith, good, reached, writes conn (w.tick + 1))
          | inr (e, failed) ↦ ground (
            arith,
            good,
            failed,
            writes conn (w.tick + 1),
            writes conn (w.tick + 1 + 1),
            push-append w.sent (undelivered conn) (joined conn ∷ []),
          )
        ]
      ]
