-- ===== src/Auth/Delivery/Laws.antt =====
-- What the headers of a validated token are, and what the gRPC server answers.
use brain_blitz.Prelude.{
  String, Bool, ◌≡◌, refl, sym, ◌∙◌, ap, inl, inr, true, false, Option, none, some, List, [], ◌∷◌,
  arith, ◌⊎◌, str_eq, str_eq_refl, eq_iff, if◌then◌else◌, Bool-cases, Option-cases,
}
use brain_blitz.Auth.Service.{Claims, text_claim, number_claim, to_map_data, has_key}
use brain_blitz.Auth.Delivery.{claim_header, set_present, set_claim, set_claims}
use brain_blitz.Http.{Header}

-- A claim's header is its own.
abbrev pub HasHeader : String → String → Type 0
HasHeader key name =
    (claim_header key ≡ some name)
    × ((k n : String) → claim_header k ≡ some n → str_eq k key ≡ false → str_eq name n ≡ false)

-- The header for a key by the two tests of the switch.
abbrev header_if : Bool → Bool → Option String
header_if is_id is_role =
    if is_id then some "X-User-ID" else if is_role then some "X-User-Role" else none

header_same : {a b : String} → some a ≡ some b → a ≡ b
header_same same = cc

header_if_other :
    (is_id is_role : Bool) (n : String)
    → header_if is_id is_role ≡ some n
    → (is_id ≡ false → str_eq "X-User-ID" n ≡ false)
      × (is_role ≡ false → str_eq "X-User-Role" n ≡ false)
header_if_other true is_role n has =
    (λ e. absurd (ground arith), λ e. ap (str_eq "X-User-Role") (header_same (sym has)))
header_if_other false true n has =
    (λ e. ap (str_eq "X-User-ID") (header_same (sym has)), λ e. absurd (ground arith))
header_if_other false false n has = absurd (ground arith)

pub id-HasHeader : HasHeader "id" "X-User-ID"
id-HasHeader =
    (refl, λ k n has other. (header_if_other (str_eq k "id") (str_eq k "role") n has).0 other)

pub role-HasHeader : HasHeader "role" "X-User-Role"
role-HasHeader =
    (refl, λ k n has other. (header_if_other (str_eq k "id") (str_eq k "role") n has).1 other)

module _ (key name value : String) (own : HasHeader key name) where
  set_claim_own :
      (k : String) (h : Header)
      → str_eq k key ≡ true
      → set_claim (record { key = k; value = value }) h name ≡ some value
  set_claim_own k h same =
      let found : claim_header k ≡ some name = ap claim_header ((eq_iff k key).0 same) ∙ own.0 in
      ap (λ o. set_present o value h name) found
      ∙ ap (λ b. if b then some value else h name) (str_eq_refl name)

  set_claim_other :
      (k v : String) (h : Header)
      → str_eq k key ≡ false
      → set_claim (record { key = k; value = v }) h name ≡ h name
  set_claim_other k v h other = elim (Option-cases (claim_header k)) [
    | inl absent ↦ ap (λ o. set_present o v h name) absent
    | inr (n, has) ↦
        ap (λ o. set_present o v h name) has
        ∙ ap (λ b. if b then some v else h name) (own.1 k n has other)
  ]

  module _ (claims : Claims) (has : claims key ≡ some (text_claim value)) where
    pub set_claims_lem :
        (keys : List String) (h : Header)
        → (has_key key keys ≡ true) ⊎ (h name ≡ some value)
        → set_claims (to_map_data keys claims) h name ≡ some value
    unfolding set_claims to_map_data
    set_claims_lem [] h (inl asked) = absurd (ground arith)
    set_claims_lem [] h (inr held) = held
    set_claims_lem (k ∷ keys) h given = elim (Bool-cases (str_eq k key)) [
      | inl same ↦
          let here : claims k ≡ some (text_claim value) = ap claims ((eq_iff k key).0 same) ∙ has in
          rw (here, to_map_data) (set_claims_lem keys _ (inr (set_claim_own k h same)))
      | inr other ↦
          let later : (has_key key keys ≡ true) ⊎ (h name ≡ some value) =
            ground (arith, given, other) in
          elim (Option-cases (claims k)) [
            | inl absent ↦ rw (absent, to_map_data) (set_claims_lem keys h later)
            | inr (number_claim n, number) ↦ rw (number, to_map_data) (set_claims_lem keys h later)
            | inr (text_claim v, is_text) ↦
                rw (is_text, to_map_data)
                  (set_claims_lem keys (set_claim (record { key = k; value = v }) h) (elim later [
                    | inl asked ↦ inl asked
                    | inr held ↦ inr (set_claim_other k v h other ∙ held)
                  ]))
          ]
    ]
