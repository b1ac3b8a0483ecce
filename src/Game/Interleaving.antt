-- ===== src/Game/Interleaving.antt =====
-- Two calls of a method of services/game_app/repository/game.go at the same time, where the method
-- reads a store and then writes it, with no lock: each call has two steps, and other goroutines may
-- run between them. `X` is what the first step gives to the second.
use brain_blitz.Prelude.{◌≡◌, refl, ◌∙◌, ap, List, [], ◌∷◌}
use brain_blitz.Game.World.{World, Result, Action, ok, err, panic, ◌>>=◌}

-- Where a call is: not begun, after the read, or returned.
pub data Phase (X : Type 0) (A : Type 0) : Type 0 where
  begun : Phase X A
  has_read : X → Phase X A
  returned : Result A → Phase X A

pub data Caller : Type 0 where
  first second : Caller

abbrev pub other : Caller → Caller
other first = second
other second = first

abbrev pub with_phase : {P : Type 0} → Caller → P → (Caller → P) → Caller → P
with_phase first p phases first = p
with_phase first p phases second = phases second
with_phase second p phases first = phases first
with_phase second p phases second = p

kept :
    {P : Type 0} → (c : Caller) (x : P) (p : Caller → P) → with_phase c x p (other c) ≡ p (other c)
kept first x p = refl
kept second x p = refl

kept_by_other :
    {P : Type 0} → (c : Caller) (x : P) (p : Caller → P) → with_phase (other c) x p c ≡ p c
kept_by_other first x p = refl
kept_by_other second x p = refl

-- A phase for each caller, whoever gets it first.
set_by_both :
    {P : Type 0}
    → (f : Caller → P) (c e : Caller) (p : Caller → P)
    → (with_phase (other c) (f (other c)) (with_phase c (f c) p) e ≡ f e)
      × (with_phase c (f c) (with_phase (other c) (f (other c)) p) e ≡ f e)
set_by_both f first first p = (refl, refl)
set_by_both f first second p = (refl, refl)
set_by_both f second first p = (refl, refl)
set_by_both f second second p = (refl, refl)

-- Two calls on one store.
pub record Race (X : Type 0) (A : Type 0) : Type 0 where
  pub world : World
  pub phase : Caller → Phase X A

module _ {X A : Type 0} where
  abbrev pub after_read : Result X × World → Phase X A × World
  after_read (ok value, w) = (has_read value, w)
  after_read (err e, w) = (returned (err e), w)
  after_read (panic, w) = (returned panic, w)

  module _ (read : Caller → Action X) (finish : Caller → X → Action A) where
    -- One call's next step.
    unfoldable pub advance : Caller → Phase X A → World → Phase X A × World
    advance c begun w = after_read (read c w)
    advance c (has_read value) w = let (answer, w') = finish c value w in (returned answer, w')
    advance c (returned answer) w = (returned answer, w)

    rest_after_read :
        (c : Caller) (w : World) (x : Result X × World)
        → let (p, w') = after_read x in
          let (answer, w'') = ((λ v. x) >>= finish c) w in advance c p w' ≡ (returned answer, w'')
    unfolding advance
    rest_after_read c w (ok value, w') = refl
    rest_after_read c w (err e, w') = refl
    rest_after_read c w (panic, w') = refl

    -- A call whose two steps follow each other is the method.
    pub advance_twice :
        (c : Caller) (w : World)
        → let (p, w') = advance c begun w in
          let (answer, w'') = (read c >>= finish c) w in advance c p w' ≡ (returned answer, w'')
    unfolding advance
    advance_twice c w = rest_after_read c w (read c w)

    unfoldable pub turn : Caller → Race X A → Race X A
    unfolding advance
    turn c race =
        let (p, w) = advance c (race.phase c) race.world in
        record { world = w; phase = with_phase c p race.phase }

    unfoldable pub run_turns : List Caller → Race X A → Race X A
    unfolding turn
    run_turns [] race = race
    run_turns (c ∷ turns) race = run_turns turns (turn c race)

    turn-begun :
        (c : Caller) (race : Race X A) {x : X} {w : World}
        → race.phase c ≡ begun
        → read c race.world ≡ (ok x, w)
        → turn c race ≡ record { world = w; phase = with_phase c (has_read x) race.phase }
    unfolding turn advance
    turn-begun c race now reads = rw (turn, now, advance, reads) refl

    turn-has_read :
        (c : Caller) (race : Race X A) {x : X} {a : Result A} {w : World}
        → race.phase c ≡ has_read x
        → finish c x race.world ≡ (a, w)
        → turn c race ≡ record { world = w; phase = with_phase c (returned a) race.phase }
    unfolding turn advance
    turn-has_read c race now finishes = rw (turn, now, advance, finishes) refl

    -- Both calls read before either writes: what the four steps make of the store.
    pub overlap :
        (x : Caller → X) (a : Caller → Result A) (reader writer : Caller) (w w1 w2 w3 w4 : World)
        → read reader w ≡ (ok (x reader), w1)
        → read (other reader) w1 ≡ (ok (x (other reader)), w2)
        → finish (other writer) (x (other writer)) w2 ≡ (a (other writer), w3)
        → finish writer (x writer) w3 ≡ (a writer, w4)
        → let race =
            run_turns
              (reader ∷ other reader ∷ other writer ∷ writer ∷ [])
              (record { world = w; phase = λ c. begun }) in
          (race.world ≡ w4) × ((c : Caller) → race.phase c ≡ returned (a c))
    unfolding run_turns
    overlap x a reader writer w w1 w2 w3 w4 one_reads other_reads other_writes one_writes =
        let p1 = with_phase reader (has_read (x reader)) (λ c. begun) in
        let p2 = with_phase (other reader) (has_read (x (other reader))) p1 in
        let p3 = with_phase (other writer) (returned (a (other writer))) p2 in
        let both_read : (c : Caller) → p2 c ≡ has_read (x c) =
          λ c. (set_by_both (λ e. has_read (x e)) reader c (λ e. begun)).0 in
        let all =
          ap (run_turns (other reader ∷ other writer ∷ writer ∷ []))
            (turn-begun reader (record { world = w; phase = λ c. begun }) refl one_reads)
          ∙ ap (run_turns (other writer ∷ writer ∷ [])) (
              turn-begun (other reader) (record { world = w1; phase = p1 })
                (kept reader (has_read (x reader)) (λ c. begun)) other_reads)
          ∙ ap (run_turns (writer ∷ [])) (
              turn-has_read (other writer) (record { world = w2; phase = p2 })
                (both_read (other writer)) other_writes)
          ∙ turn-has_read writer (record { world = w3; phase = p3 })
              (kept_by_other writer (returned (a (other writer))) p2 ∙ both_read writer)
              one_writes in
        (
          ap (λ r. r.world) all,
          λ c. ap (λ r. r.phase c) all ∙ (set_by_both (λ e. returned (a e)) writer c p2).1,
        )
