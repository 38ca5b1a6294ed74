-- ===== src/Base/Map.antt =====
-- Go maps as association lists. A write replaces the entry of its key where there is one; the order
-- of the entries, in which Go ranges over a map, is not fixed by the language, and no theorem but
-- those about lookups and membership depends on it.
use Prim.Native.Nat.{ℕ}
use mathlib.Core.Path.{◌≡◌, refl, sym, ◌∙◌}
use mathlib.Core.Logic.{◌↔◌, ◌≢◌, inl, inr}
use mathlib.Core.Bool.{Bool, true, false}
use mathlib.Core.Option.{Option, none, some}
use mathlib.Core.List.{List, [], ◌∷◌}
use native.Mathlib.Omega.{arith}
use codewire.Base.Tests.{◌==◌, ==_iff, if◌then◌else◌, Bool-cases}
use codewire.Base.Text.{Text, ◌=ᵗ◌, =ᵗ_iff}

-- The comparison of keys.
pub record Key {ℓ} (K : Type ℓ) : Type ℓ where
  pub same : K → K → Bool
  pub same_iff : (a b : K) → (same a b ≡ true) ↔ (a ≡ b)

instance abbrev pub nat_key : Key ℕ
nat_key = record { same = ◌==◌; same_iff = ==_iff }

instance abbrev pub text_key : Key Text
text_key = record { same = ◌=ᵗ◌; same_iff = =ᵗ_iff }

abbrev pub Map {ℓ κ} : Type ℓ → Type κ → Type (ℓ ⊔ κ)
Map K V = List (K × V)

module _ {ℓ} {K : Type ℓ} ⦃e : Key K⦄ where
  pub same_refl : (k : K) → e.same k k ≡ true
  same_refl k = (e.same_iff k k).1 refl

  pub same_sym : (a b : K) → e.same a b ≡ e.same b a
  same_sym a b = elim (Bool-cases (e.same a b)) [
    | inl p ↦ p ∙ sym ((e.same_iff b a).1 (sym ((e.same_iff a b).0 p)))
    | inr p ↦ elim (Bool-cases (e.same b a)) [
      | inl q ↦ absurd (let r = (e.same_iff a b).1 (sym ((e.same_iff b a).0 q)) in cc)
      | inr q ↦ p ∙ sym q
    ]
  ]

  pub same_of_ne : (a b : K) → a ≢ b → e.same a b ≡ false
  same_of_ne a b h = elim (Bool-cases (e.same a b)) [
    | inl p ↦ absurd (h ((e.same_iff a b).0 p))
    | inr p ↦ p
  ]

  module _ {κ} {V : Type κ} where
    -- `m[k]`.
    unfoldable pub lookup : K → Map K V → Option V
    lookup k [] = none
    lookup k ((j, v) ∷ m) = if e.same j k then some v else lookup k m

    -- `m[k] = v`.
    unfoldable pub insert : K → V → Map K V → Map K V
    insert k v [] = (k, v) ∷ []
    insert k v ((j, w) ∷ m) = if e.same j k then (j, v) ∷ m else (j, w) ∷ insert k v m

    -- `delete(m, k)`.
    unfoldable pub remove : K → Map K V → Map K V
    remove k [] = []
    remove k ((j, v) ∷ m) = let rest = remove k m in if e.same j k then rest else (j, v) ∷ rest

    -- A loop over a map that deletes the entries whose value does not pass.
    unfoldable pub retain : (V → Bool) → Map K V → Map K V
    retain keep [] = []
    retain keep ((j, v) ∷ m) = let rest = retain keep m in if keep v then (j, v) ∷ rest else rest

    pub lookup-insert :
        (k j : K) (v : V) (m : Map K V)
        → lookup j (insert k v m) ≡ (if e.same k j then some v else lookup j m)
    unfolding lookup insert
    lookup-insert k j v [] = refl
    lookup-insert k j v ((i, w) ∷ m) =
        ground (arith, e.same_iff i k, e.same_iff i j, e.same_iff k j, lookup-insert k j v m)

    pub lookup-remove :
        (k j : K) (m : Map K V) → lookup j (remove k m) ≡ (if e.same k j then none else lookup j m)
    unfolding lookup remove
    lookup-remove k j [] = ground arith
    lookup-remove k j ((i, w) ∷ m) =
        ground (arith, e.same_iff i k, e.same_iff i j, e.same_iff k j, lookup-remove k j m)

    pub lookup-retain :
        (keep : V → Bool) (k : K) (v : V) (m : Map K V)
        → lookup k m ≡ some v
        → keep v ≡ true
        → lookup k (retain keep m) ≡ some v
    unfolding lookup retain
    lookup-retain keep k v [] h p = cc
    lookup-retain keep k v ((j, w) ∷ m) h p = ground (arith, lookup-retain keep k v m)
