-- ===== src/Redis/Behaviour.antt =====
-- The documented behaviour of a Redis server's sorted sets that the code relies on, as laws of a
-- client: what ZADD, ZREM and ZRANGEBYSCORE do to the members and their scores.
use brain_blitz.Prelude.{
  ℕ, ◌≤◌, String, Bool, true, false, ◌≡◌, ◌↔◌, Option, none, some, List, [], ◌∷◌, str_eq, ◌==◌,
  if◌then◌else◌, any, map, refl, ap, inl, inr, Option-cases,
}
use brain_blitz.Errors.{GoError}
use brain_blitz.Game.Entity.{Time}
use brain_blitz.Redis.{Z, Client, copy_z, z_range}

-- The score of a member of a set, if it is one: what a server holds.
abbrev pub Scores : Type 0
Scores = String → String → Option ℕ

-- The member as go-redis writes it in a command.
module _ {M : Type 0} (written : M → String) where
  abbrev pub added : List (Z M) → String → Option ℕ → Option ℕ
  added [] member old = old
  added (z ∷ zs) member old =
      added zs member (if str_eq (written z.member) member then some z.score else old)

  abbrev pub removed : List M → String → Option ℕ → Option ℕ
  removed [] member old = old
  removed (m ∷ ms) member old = removed ms member (if str_eq (written m) member then none else old)

abbrev pub has_member : String → ℕ → List (Z String) → Bool
has_member member score = any (λ z. if str_eq z.member member then z.score == score else false)

-- Nothing was written, and the clock was not set back.
pub record IsLater {S : Type 0} (scores : S → Scores) (now : S → Time) (s t : S) : Type 0 where
  pub same : (key member : String) → scores t key member ≡ scores s key member
  pub later : now s ≤ now t

-- A server that answers every command without an error, at times that do not go back.
pub record IsSortedSets {S M : Type 0} (client : Client S M) (written : M → String)
    (scores : S → Scores) (now : S → Time) : Type 0 where
  pub add_ok : (key : String) (zs : List (Z M)) (s : S) → (client.z_add key zs s).0 ≡ none
  pub add_scores :
      (key : String) (zs : List (Z M)) (s : S) (k member : String)
      → scores (client.z_add key zs s).1 k member
        ≡ (if str_eq k key then added written zs member (scores s k member) else scores s k member)
  pub add_later : (key : String) (zs : List (Z M)) (s : S) → now s ≤ now (client.z_add key zs s).1
  pub rem_ok : (key : String) (ms : List M) (s : S) → (client.z_rem key ms s).0 ≡ none
  pub rem_scores :
      (key : String) (ms : List M) (s : S) (k member : String)
      → scores (client.z_rem key ms s).1 k member ≡ (
          if str_eq k key then removed written ms member (scores s k member) else scores s k member)
  pub rem_later : (key : String) (ms : List M) (s : S) → now s ≤ now (client.z_rem key ms s).1
  pub range_ok :
      (key : String) (a b : ℕ) (s : S)
      → (client.z_range_by_score_with_scores key (client.itoa a) (client.itoa b) s).1 ≡ none
  pub range_members :
      (key : String) (a b : ℕ) (s : S) (member : String) (score : ℕ)
      → (has_member member score
            (client.z_range_by_score_with_scores key (client.itoa a) (client.itoa b) s).0
          ≡ true)
        ↔ ((scores s key member ≡ some score) × (a ≤ score) × (score ≤ b))
  pub range_later :
      (key : String) (a b : ℕ) (s : S)
      → IsLater scores now s
          (client.z_range_by_score_with_scores key (client.itoa a) (client.itoa b) s).2

map-copy_z : (zs : List (Z String)) → map copy_z zs ≡ zs
map-copy_z [] = refl
map-copy_z (z ∷ zs) = ap (◌∷◌ z) (map-copy_z zs)

module _ {S M : Type 0} (client : Client S M) where
  abbrev by_score : String → ℕ → ℕ → S → List (Z String) × Option GoError × S
  by_score key start stop =
      client.z_range_by_score_with_scores key (client.itoa start) (client.itoa stop)

  pub z_range_lem :
      (key : String) (start stop : ℕ) (s : S)
      → (by_score key start stop s).1 ≡ none
      → z_range client key start stop true s
        ≡ (none, (by_score key start stop s).0, (by_score key start stop s).2)
  unfolding z_range
  z_range_lem key start stop s ok = rw (z_range, ok, map-copy_z (by_score key start stop s).0) refl

  -- With scores, a range never reports an error.
  pub z_range-none :
      (key : String) (start stop : ℕ) (s : S) → (z_range client key start stop true s).0 ≡ none
  unfolding z_range
  z_range-none key start stop s = elim (Option-cases (by_score key start stop s).1) [
    | inl ok ↦ rw (z_range, ok) refl
    | inr (e, failed) ↦ rw (z_range, failed) refl
  ]
