-- ===== src/Game/System/Frame.antt =====
-- What every step of services/game_app keeps, for a relation between the world before and the world
-- after: it is enough to know it of the three writes to the collections of MongoDB.
pub mod Repository
pub mod Service
pub mod Steps
use brain_blitz.Prelude.{
  ℕ, String, Bool, true, false, ◌≡◌, refl, Option, none, some, List, [], ◌∷◌, ◌++◌, push,
  if◌then◌else◌,
}
use brain_blitz.Errors.{GoError}
use brain_blitz.Game.Entity.{GameQuestions, ReadyPlayers}
use brain_blitz.Game.World.{
  World, Outside, Config, Result, Action, Task, ok, err, panic, pure, raise, crash, gets, or_raise,
  attempt, handle, ◌>>=◌, ◌>>◌, modify, spawn, call, time_now, get_game_questions, get_status_text,
  get_game_status, set_game_questions, set_game_status,
}
use brain_blitz.Game.Repository.Questions.{update_match}

-- A relation that holds where nothing in the collections changes, and of what comes one after the other.
pub record IsFrame (R : World → World → Type 0) : Type 0 where
  pub aside : (v w : World) → w.games ≡ v.games → w.player_answers ≡ v.player_answers → R v w
  pub trans : (u v w : World) → R u v → R v w → R u w

pub record Keeps {A : Type 0} (R : World → World → Type 0) (m : Action A) : Type 0 where
  pub at : (w : World) → R w (m w).1

module _ {R : World → World → Type 0} (frame : IsFrame R) where
  pub Keeps-pure : {A : Type 0} (a : A) → Keeps R (pure a)
  Keeps-pure a = record { at = λ w. frame.aside w w refl refl }

  pub Keeps-raise : {A : Type 0} (e : GoError) → Keeps {A = A} R (raise e)
  Keeps-raise e = record { at = λ w. frame.aside w w refl refl }

  pub Keeps-crash : {A : Type 0} → Keeps {A = A} R crash
  Keeps-crash = record { at = λ w. frame.aside w w refl refl }

  pub Keeps-gets : {A : Type 0} (f : World → A) → Keeps R (gets f)
  Keeps-gets f = record { at = λ w. frame.aside w w refl refl }

  pub Keeps-or_raise : {A : Type 0} (o : Option A) (e : GoError) → Keeps R (or_raise o e)
  Keeps-or_raise none e = Keeps-raise e
  Keeps-or_raise (some a) e = Keeps-pure a

  pub Keeps-modify :
      (f : World → World)
      → ((w : World) → (f w).games ≡ w.games)
      → ((w : World) → (f w).player_answers ≡ w.player_answers)
      → Keeps R (modify f)
  Keeps-modify f games answers = record { at = λ w. frame.aside w (f w) (games w) (answers w) }

  pub Keeps-spawn : (t : Task) → Keeps R (spawn t)
  Keeps-spawn t = record { at = λ w. frame.aside w (spawn t w).1 refl refl }

  pub Keeps-bind :
      {A B : Type 0} {m : Action A} {k : A → Action B}
      → Keeps R m
      → ((a : A) → Keeps R (k a))
      → Keeps R (m >>= k)
  Keeps-bind {A} {B} {m} {k} hm hk = record { at = λ w. go (m w).0 (m w).1 (hm.at w) }
    where
      go :
          {w : World} (r : Result A) (v : World)
          → R w v
          → let after : Result B × World = elim r [
            | ok a ↦ k a v
            | err e ↦ (err e, v)
            | panic ↦ (panic, v)
          ] in
            R w after.1
      go {w} (ok a) v h = frame.trans w v (k a v).1 h ((hk a).at v)
      go (err e) v h = h
      go panic v h = h

  pub Keeps-then :
      {A B : Type 0} {m : Action A} {k : Action B} → Keeps R m → Keeps R k → Keeps R (m >> k)
  Keeps-then hm hk = Keeps-bind hm λ _. hk

  pub Keeps-handle :
      {A B : Type 0} {m : Action A} {on_error : GoError → Action B} {k : A → Action B}
      → Keeps R m
      → ((e : GoError) → Keeps R (on_error e))
      → ((a : A) → Keeps R (k a))
      → Keeps R (handle m on_error k)
  Keeps-handle {A} {B} {m} {on_error} {k} hm he hk = record {
    at = λ w. go (m w).0 (m w).1 (hm.at w);
  }
    where
      go :
          {w : World} (r : Result A) (v : World)
          → R w v
          → let after : Result B × World = elim r [
            | ok a ↦ k a v
            | err e ↦ on_error e v
            | panic ↦ (panic, v)
          ] in
            R w after.1
      go {w} (ok a) v h = frame.trans w v (k a v).1 h ((hk a).at v)
      go {w} (err e) v h = frame.trans w v (on_error e v).1 h ((he e).at v)
      go panic v h = h

  pub Keeps-attempt : {A : Type 0} {m : Action A} → Keeps R m → Keeps R (attempt m)
  Keeps-attempt {A} {m} hm = record { at = λ w. go (m w).0 (m w).1 (hm.at w) }
    where
      go :
          {w : World} (r : Result A) (v : World)
          → R w v
          → let after : Result (Option A) × World = elim r [
            | ok a ↦ (ok (some a), v)
            | err e ↦ (ok none, v)
            | panic ↦ (panic, v)
          ] in
            R w after.1
      go (ok a) v h = h
      go (err e) v h = h
      go panic v h = h

  pub Keeps-if :
      {A : Type 0} (b : Bool) {m k : Action A}
      → Keeps R m
      → Keeps R k
      → Keeps R (if b then m else k)
  Keeps-if true hm hk = hm
  Keeps-if false hm hk = hk

  module _ (out : Outside) where
    pub Keeps-call : Keeps R (call out)
    Keeps-call = record { at = λ w. frame.aside w (call out w).1 refl refl }

    pub Keeps-time_now : Keeps R (time_now out)
    Keeps-time_now = record { at = λ w. frame.aside w (time_now out w).1 refl refl }

pub ruleset keeps_rules = (
  refl, Keeps-pure, Keeps-raise, Keeps-crash, Keeps-gets, Keeps-or_raise, Keeps-modify, Keeps-spawn,
  Keeps-bind, Keeps-then, Keeps-handle, Keeps-attempt, Keeps-if, Keeps-call, Keeps-time_now,
)

module _ {R : World → World → Type 0} (frame : IsFrame R) (out : Outside) where
  pub Keeps-get_game_questions : (id : String) → Keeps R (get_game_questions out id)
  unfolding get_game_questions
  Keeps-get_game_questions id = search keeps_rules

  pub Keeps-get_status_text : (id : ℕ) → Keeps R (get_status_text out id)
  unfolding get_status_text
  Keeps-get_status_text id = search keeps_rules

  pub Keeps-get_game_status : (id : String) → Keeps R (get_game_status out id)
  unfolding get_game_status
  Keeps-get_game_status id = search keeps_rules

  pub Keeps-set_game_questions :
      (id : String) (v : GameQuestions) → Keeps R (set_game_questions out id v)
  unfolding set_game_questions
  Keeps-set_game_questions id v = search keeps_rules

  pub Keeps-set_game_status : (id : String) (v : ReadyPlayers) → Keeps R (set_game_status out id v)
  unfolding set_game_status
  Keeps-set_game_status id v = search keeps_rules
