-- ===== src/Base/Dict.antt =====
-- `std::unordered_map` as an association list in the map's iteration order. A key is compared by
-- an instance of `Eq`.
use Prim.Native.Nat.{ℕ}
use mathlib.Core.Path.{◌≡◌, refl}
use mathlib.Core.Logic.{◌↔◌}
use mathlib.Core.Bool.{Bool, true}
use mathlib.Core.List.{List, [], ◌∷◌}
use mathlib.Core.Option.{Option, none, some}
use native.Mathlib.Omega.{arith}
use rises.Base.Tests.{if◌then◌else◌, ◌==◌, ==_iff, Text, text_eq, text_eq_iff}
use rises.Base.Int.{ℤ, eq_ℤ, eq_ℤ_iff}

pub record Eq {ℓ} (A : Type ℓ) : Type ℓ where
  pub beq : A → A → Bool
  pub beq_iff : (a b : A) → (beq a b ≡ true) ↔ (a ≡ b)

instance abbrev pub nat_eq : Eq ℕ
nat_eq = record { beq = ◌==◌; beq_iff = ==_iff }

instance abbrev pub text_keys : Eq Text
text_keys = record { beq = text_eq; beq_iff = text_eq_iff }

instance abbrev pub int_keys : Eq ℤ
int_keys = record { beq = eq_ℤ; beq_iff = eq_ℤ_iff }

abbrev pub or_new {ℓ} : {V : Type ℓ} → V → Option V → V
or_new d none = d
or_new d (some v) = v

module _ {ℓ κ} {K : Type ℓ} {V : Type κ} ⦃e : Eq K⦄ where
  -- `m.find(k)`
  unfoldable pub lookup : K → List (K × V) → Option V
  lookup k [] = none
  lookup k ((j, v) ∷ m) = if e.beq j k then some v else lookup k m

  -- `m[k]`, which makes the entry from `d` where it is missing, changed by `f`.
  unfoldable pub update : K → V → (V → V) → List (K × V) → List (K × V)
  update k d f [] = (k, f d) ∷ []
  update k d f ((j, v) ∷ m) = if e.beq j k then (j, f v) ∷ m else (j, v) ∷ update k d f m

  -- `m.erase(k)`
  unfoldable pub erase : K → List (K × V) → List (K × V)
  erase k [] = []
  erase k ((j, v) ∷ m) = if e.beq j k then erase k m else (j, v) ∷ erase k m

  pub lookup-update :
      (k j : K) (d : V) (f : V → V) (m : List (K × V))
      → lookup j (update k d f m)
        ≡ (if e.beq k j then some (f (or_new d (lookup k m))) else lookup j m)
  unfolding lookup update
  lookup-update k j d f [] = refl
  lookup-update k j d f ((i, v) ∷ m) =
      ground (arith, e.beq_iff k j, e.beq_iff i k, e.beq_iff i j, lookup-update k j d f m)

  pub lookup-erase :
      (k j : K) (m : List (K × V)) → lookup j (erase k m) ≡ (if e.beq k j then none else lookup j m)
  unfolding lookup erase
  lookup-erase k j [] = ground arith
  lookup-erase k j ((i, v) ∷ m) =
      ground (arith, e.beq_iff k j, e.beq_iff i k, e.beq_iff i j, lookup-erase k j m)
