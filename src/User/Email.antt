-- ===== src/User/Email.antt =====
-- pkg/email, and getDisplayName of services/user_app/service/service.go. A text is its bytes, of
-- which 64 is '@'.
pub mod Laws
use brain_blitz.Prelude.{
  ℕ, Bool, true, false, not, List, [], ◌∷◌, ◌==◌, ltb, leb, any, length, if◌then◌else◌,
}

abbrev pub Bytes : Type 0
Bytes = List ℕ

abbrev pub at_sign : ℕ
at_sign = 64

-- A byte before the first piece of what follows.
abbrev pub onto_first : ℕ → List Bytes → List Bytes
onto_first b [] = (b ∷ []) ∷ []
onto_first b (piece ∷ pieces) = (b ∷ piece) ∷ pieces

-- `strings.Split(s, "@")`
unfoldable pub split : Bytes → List Bytes
split [] = [] ∷ []
split (b ∷ bytes) =
    let pieces = split bytes in if b == at_sign then [] ∷ pieces else onto_first b pieces

-- `splitEmail[i]`; the code only asks for what is there.
abbrev pub first_piece : List Bytes → Bytes
first_piece [] = []
first_piece (piece ∷ pieces) = piece

abbrev pub lengths_fit : List Bytes → Bool
lengths_fit [] = false
lengths_fit (a ∷ []) = false
lengths_fit (a ∷ b ∷ []) =
    if leb (length a) 4 then false else if leb 50 (length b) then false else not (leb (length b) 2)
lengths_fit (a ∷ b ∷ c ∷ pieces) = false

unfoldable pub is_valid : Bytes → Bool
unfolding split
is_valid email = if any (λ b. b == at_sign) email then lengths_fit (split email) else false

unfoldable pub get_display_name : Bytes → Bytes
unfolding split
get_display_name email = first_piece (split email)
