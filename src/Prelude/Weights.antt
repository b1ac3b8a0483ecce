-- ===== src/Prelude/Weights.antt =====
-- The sum of a weight over a list, which does not depend on the order.
use Prim.Native.Nat.{ℕ, ◌+◌}
use mathlib.Core.Path.{◌≡◌, refl, ap, ◌∙◌}
use mathlib.Core.Logic.{∥∥₁_elim}
use mathlib.Core.List.{List, [], ◌∷◌, Perm, Permᴰ}
use native.Mathlib.Omega.{arith}

module _ {ℓ} {A : Type ℓ} (w : A → ℕ) where
  abbrev pub weigh : List A → ℕ
  weigh [] = 0
  weigh (x ∷ xs) = w x + weigh xs

  weigh-Permᴰ : {xs ys : List A} → Permᴰ xs ys → weigh xs ≡ weigh ys
  weigh-Permᴰ Permᴰ.nil = refl
  weigh-Permᴰ (Permᴰ.cons {l₁ = xs} {l₂ = ys} e π) = omega (arith, ap w e, weigh-Permᴰ π)
  weigh-Permᴰ (Permᴰ.swap e f) = omega (arith, ap w e, ap w f)
  weigh-Permᴰ (Permᴰ.trans π ρ) = weigh-Permᴰ π ∙ weigh-Permᴰ ρ

  pub weigh-Perm : {xs ys : List A} → Perm xs ys → weigh xs ≡ weigh ys
  weigh-Perm {xs} {ys} π = ∥∥₁_elim {P = weigh xs ≡ weigh ys} π (hlevel) weigh-Permᴰ
