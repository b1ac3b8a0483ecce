-- ===== src/User/Email/Laws.antt =====
-- Which texts pass as e-mail addresses.
use brain_blitz.Prelude.{
  ◌≤◌, ◌<◌, ◌≡◌, ◌↔◌, refl, sym, ◌∙◌, ap, inl, inr, Bool, true, false, List, [], ◌∷◌, ◌++◌, arith,
  ◌==◌, any, length, Bool-cases,
}
use brain_blitz.User.Email.{
  Bytes, at_sign, split, first_piece, lengths_fit, is_valid, get_display_name,
}

abbrev pub has_at : Bytes → Bool
has_at = any (λ b. b == at_sign)

-- A text without '@' is one piece.
split_plain : (bytes : Bytes) → has_at bytes ≡ false → split bytes ≡ bytes ∷ []
unfolding split
split_plain [] plain = refl
split_plain (b ∷ bytes) plain = elim (Bool-cases (b == at_sign)) [
  | inl own ↦ absurd (ground arith)
  | inr other ↦
      let rest : has_at bytes ≡ false = ground arith in rw (other, split_plain bytes rest) refl
]

-- The first '@' ends the first piece.
pub split_at : (a b : Bytes) → has_at a ≡ false → split (a ++ (at_sign ∷ b)) ≡ a ∷ split b
unfolding split
split_at [] b plain = refl
split_at (x ∷ a) b plain = elim (Bool-cases (x == at_sign)) [
  | inl own ↦ absurd (ground arith)
  | inr other ↦ let rest : has_at a ≡ false = ground arith in rw (other, split_at a b rest) refl
]

has_at-append : (a b : Bytes) → has_at (a ++ (at_sign ∷ b)) ≡ true
has_at-append [] b = refl
has_at-append (x ∷ a) b = ground (arith, has_at-append a b)

-- A text with '@' is what stands before the first one and after it.
cut :
    (bytes : Bytes)
    → has_at bytes ≡ true
    → (a : Bytes) × (b : Bytes) × (bytes ≡ a ++ (at_sign ∷ b)) × (has_at a ≡ false)
cut [] h = absurd (ground arith)
cut (x ∷ bytes) h = elim (Bool-cases (x == at_sign)) [
  | inl own ↦ ([], bytes, ap (λ y. y ∷ bytes) (ground arith), refl)
  | inr other ↦
      let (a, b, e, plain) = cut bytes (ground arith) in (x ∷ a, b, ap (◌∷◌ x) e, rw other plain)
]

split_some :
    (bytes : Bytes) → (piece : Bytes) × (pieces : List Bytes) × (split bytes ≡ piece ∷ pieces)
split_some bytes = elim (Bool-cases (has_at bytes)) [
  | inl h ↦ let (a, b, e, plain) = cut bytes h in (a, split b, ap split e ∙ split_at a b plain)
  | inr plain ↦ (bytes, [], split_plain bytes plain)
]

too_many : (a b : Bytes) → has_at b ≡ true → lengths_fit (a ∷ split b) ≡ false
too_many a b h =
    let (c, d, e, plain) = cut b h in
    let (piece, pieces, some_piece) = split_some d in
    ap (λ s. lengths_fit (a ∷ s)) (ap split e ∙ split_at c d plain ∙ ap (◌∷◌ c) some_piece)

-- An address: one '@', five bytes or more before it, and 3 to 49 after it.
abbrev pub IsAddress : Bytes → Type 0
IsAddress email =
    (a : Bytes) × (b : Bytes) × (email ≡ a ++ (at_sign ∷ b))
    × (has_at a ≡ false)
    × (has_at b ≡ false)
    × (5 ≤ length a)
    × (3 ≤ length b)
    × (length b < 50)

lengths_iff :
    (a b : Bytes)
    → (lengths_fit (a ∷ b ∷ []) ≡ true) ↔ ((5 ≤ length a) × (3 ≤ length b) × (length b < 50))
lengths_iff a b = ground arith

-- A text is accepted exactly if it is an address.
pub is_valid_iff : (email : Bytes) → (is_valid email ≡ true) ↔ IsAddress email
unfolding is_valid
is_valid_iff email = (
  λ valid. elim (Bool-cases (has_at email)) [
    | inr none_in ↦ absurd (ground arith)
    | inl some_in ↦
        let (a, b, e, plain) = cut email some_in in
        let fits : lengths_fit (a ∷ split b) ≡ true =
          sym (ap lengths_fit (ap split e ∙ split_at a b plain)) ∙ ground arith in
        elim (Bool-cases (has_at b)) [
          | inl more ↦ absurd (ground (arith, too_many a b))
          | inr rest ↦
              let (long, least, most) =
                (lengths_iff a b).0
                  (sym (ap (λ s. lengths_fit (a ∷ s)) (split_plain b rest)) ∙ fits) in
              (a, b, e, plain, rest, long, least, most)
        ]
  ],
  λ (a, b, e, plain, rest, long, least, most).
      rw (e, has_at-append a b, split_at a b plain, split_plain b rest)
        ((lengths_iff a b).1 (long, least, most)),
)

-- The display name of an address is what stands before its '@'.
pub get_display_name_lem :
    (a b : Bytes) → has_at a ≡ false → get_display_name (a ++ (at_sign ∷ b)) ≡ a
unfolding get_display_name
get_display_name_lem a b plain = ap first_piece (split_at a b plain)
