-- ===== src/Match/Repository.antt =====
-- services/match_app/repository/match.go, over the adapter of Redis: one sorted set for each
-- category, whose members are the ids of the users, with the time of joining as the score.
-- A time is in nanoseconds since 1970 here.
pub mod Room
pub mod Reading
mod Queues
pub mod Rounds
use Prim.Native.String.{◌++◌ as str_append}
use brain_blitz.Prelude.{ℕ, ◌/◌, ◌-◌, String, Option, none, some, List, [], ◌∷◌, true, push}
use brain_blitz.Prelude.Int.{ℤ, pos, negsuc, uint64_mod}
use brain_blitz.Errors.{GoError}
use brain_blitz.Game.Entity.{Time, Duration}
use brain_blitz.Game.Time.{add}
use brain_blitz.Redis.{Z, Client, z_add, z_delete, z_range}
use brain_blitz.Match.Entity.{Category, to_string, WaitingMember}
use brain_blitz.Match.Service.{Repository}

pub record Config : Type 0 where
  pub waiting_list_prefix : String
  pub min_time_waiting_list_selection : Duration

-- The values that the repository gives to Redis as members: a user's id as it was received when he
-- is added, and a number when he is removed.
pub data Member : Type 0 where
  text_member : String → Member
  uint_member : ℕ → Member

-- `time.Now`, and the number that strconv.Atoi returns, whose error the source drops.
pub record Outside (S : Type 0) : Type 0 where
  pub time_now : S → Time × S
  pub atoi : String → ℤ

-- `t.UnixMicro()`
abbrev pub unix_micro : Time → ℕ
unix_micro t = t / 1000

-- `uint(n)`
abbrev pub to_uint : ℤ → ℕ
to_uint (pos n) = n
to_uint (negsuc n) = uint64_mod - 1 - n

-- `fmt.Sprintf("%s:%v", m.Config.WaitingListPrefix, category)`
unfoldable pub list_key : Config → Category → String
unfolding to_string
list_key config category =
    str_append (str_append config.waiting_list_prefix ":") (to_string category)

module _ {S : Type 0} (config : Config) (client : Client S Member) (out : Outside S) where
  unfoldable pub add_to_waiting_list : Category → String → S → Option GoError × S
  unfolding z_add list_key
  add_to_waiting_list category user_id s =
      let (now, s') = out.time_now s in
      z_add client (list_key config category)
        (record { score = unix_micro now; member = text_member user_id } ∷ []) s'

  -- One round of the loop over a reply.
  abbrev pub waiting_member : Category → Z String → WaitingMember
  waiting_member category z = record {
    user_id = to_uint (out.atoi z.member);
    time_stamp = z.score;
    category = category;
  }

  -- The loop over the members of a reply.
  unfoldable pub waiting_members :
      Category → List WaitingMember → List (Z String) → List WaitingMember
  waiting_members category result [] = result
  waiting_members category result (z ∷ list) =
      waiting_members category (push result (waiting_member category z)) list

  unfoldable pub get_waiting_list_by_category :
      Category → S → List WaitingMember × Option GoError × S
  unfolding add z_range list_key waiting_members
  get_waiting_list_by_category category s =
      let (first, s₁) = out.time_now s in
      let min_time = unix_micro (add first config.min_time_waiting_list_selection) in
      let (second, s₂) = out.time_now s₁ in
      let max_time = unix_micro second in
      let (err, list, s₃) = z_range client (list_key config category) min_time max_time true s₂ in
      elim err [ some e ↦ ([], some e, s₃) | none ↦ (waiting_members category [] list, none, s₃) ]

  -- An error of Redis is logged only.
  unfoldable pub remove_waiting_member : List WaitingMember → S → Option GoError × S
  unfolding z_delete list_key
  remove_waiting_member [] s = (none, s)
  remove_waiting_member (member ∷ members) s =
      let (err, s') =
        z_delete client (list_key config member.category)
          (record { score = 0; member = uint_member member.user_id } ∷ []) s in
      remove_waiting_member members s'

  -- `NewRepository`
  unfoldable pub new_repository : Repository S
  unfolding add_to_waiting_list get_waiting_list_by_category remove_waiting_member
  new_repository = record {
    add_to_waiting_list = add_to_waiting_list;
    get_waiting_list_by_category = get_waiting_list_by_category;
    remove_waiting_member = remove_waiting_member;
  }
