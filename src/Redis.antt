-- ===== src/Redis.antt =====
-- adapter/redis/adapter.go. The client of go-redis is a parameter on a state `S`; `M` is the type of
-- a member that a caller gives (`interface{}` in the source). A score is a float64 in the source:
-- the scores written are whole microseconds below 2 ^ 53, which a float64 holds exactly.
pub mod Behaviour
use brain_blitz.Prelude.{
  ℕ, String, Bool, true, false, Option, none, some, List, [], ◌∷◌, map, if◌then◌else◌,
}
use brain_blitz.Errors.{GoError}

pub record Z (M : Type 0) : Type 0 where
  pub score : ℕ
  pub member : M

-- `*redis.Client`, with the commands that the adapter sends. A reply is the value and the error. The
-- members of a reply are texts: go-redis reads them as such.
pub record Client (S M : Type 0) : Type 0 where
  pub z_add : String → List (Z M) → S → Option GoError × S
  pub z_rem : String → List M → S → Option GoError × S
  pub z_range_by_score_with_scores :
      String → String → String → S → List (Z String) × Option GoError × S
  pub z_range : String → ℕ → ℕ → S → List String × Option GoError × S
  pub itoa : ℕ → String

abbrev pub copy_z : {M : Type 0} → Z M → Z M
copy_z member = record { score = member.score; member = member.member }

-- `Z{Member: value}`
abbrev no_score : String → Z String
no_score value = record { score = 0; member = value }

module _ {S M : Type 0} (client : Client S M) where
  -- `ZAdd`
  unfoldable pub z_add : String → List (Z M) → S → Option GoError × S
  z_add key members = client.z_add key (map copy_z members)

  -- `ZDelete`
  unfoldable pub z_delete : String → List (Z M) → S → Option GoError × S
  z_delete key members = client.z_rem key (map (λ z. z.member) members)

  -- `ZRange`. The source returns the error first. With scores, an error of the command is dropped.
  unfoldable pub z_range : String → ℕ → ℕ → Bool → S → Option GoError × List (Z String) × S
  z_range key start stop with_scores s =
      if with_scores
      then (let (values, err, s') =
            client.z_range_by_score_with_scores key (client.itoa start) (client.itoa stop) s in
          elim err [ some e ↦ (none, [], s') | none ↦ (none, map copy_z values, s') ])
      else (let (values, err, s') = client.z_range key start stop s in
          elim err [ some e ↦ (some e, [], s') | none ↦ (none, map no_score values, s') ])
