-- ===== src/Common/Assoc.antt =====
-- A Go map as an association list: reads, writes and deletes, with their laws in `if` form.
use mathlib.Core.Path.{◌≡◌, refl, subst}
use mathlib.Core.Bool.{Bool, true, false}
use mathlib.Core.Logic.{◌⊎◌, inl, inr}
use Prim.Native.Nat.{◌≤◌, suc}
use mathlib.Core.Option.{Option, none, some}
use mathlib.Core.List.{List, [], ◌∷◌}
use native.Mathlib.Omega.{arith}
use chat_wire.Common.Keys.{Eq}
use chat_wire.Common.Tests.{if◌then◌else◌, if-All, Bool-cases}
use chat_wire.Common.Lists.{All, length}

abbrev pub Assoc {ℓ κ} : Type ℓ → Type κ → Type (ℓ ⊔ κ)
Assoc K V = List (K × V)

module _ {ℓ κ} {K : Type ℓ} {V : Type κ} ⦃e : Eq K⦄ where
  unfoldable pub lookup : K → Assoc K V → Option V
  lookup k [] = none
  lookup k ((j, v) ∷ m) = if e.beq j k then some v else lookup k m

  unfoldable pub erase : K → Assoc K V → Assoc K V
  erase k [] = []
  erase k ((j, v) ∷ m) = let rest = erase k m in if e.beq j k then rest else (j, v) ∷ rest

  unfoldable pub insert : K → V → Assoc K V → Assoc K V
  unfolding erase
  insert k v m = (k, v) ∷ erase k m

  pub lookup-erase :
      (k j : K) (m : Assoc K V) → lookup j (erase k m) ≡ (if e.beq k j then none else lookup j m)
  unfolding lookup erase
  lookup-erase k j [] = ground arith
  lookup-erase k j ((i, v) ∷ m) =
      ground (arith, lookup-erase k j m, e.beq_iff i k, e.beq_iff i j, e.beq_iff k j)

  pub lookup-insert :
      (k j : K) (v : V) (m : Assoc K V)
      → lookup j (insert k v m) ≡ (if e.beq k j then some v else lookup j m)
  unfolding lookup insert
  lookup-insert k j v m = ground (arith, lookup-erase k j m)

  pub erase-All {μ} : (P : K × V → Type μ) (k : K) (m : Assoc K V) → All P m → All P (erase k m)
  unfolding erase
  erase-All P k [] h = tt
  erase-All P k ((j, v) ∷ m) h =
      if-All (All P) (e.beq j k) (erase-All P k m h.1) (h.0, erase-All P k m h.1)

  pub erase-absent : (k : K) (m : Assoc K V) → All (λ a. e.beq a.0 k ≡ false) m → erase k m ≡ m
  unfolding erase
  erase-absent k [] h = refl
  erase-absent k ((j, v) ∷ m) h = rw (h.0, erase-absent k m h.1)

  -- `for k, v := range m { if ... { delete(m, k) } }`: the entries that are left.
  unfoldable pub retain : (K × V → Bool) → Assoc K V → Assoc K V
  retain keep [] = []
  retain keep (a ∷ m) = let rest = retain keep m in if keep a then a ∷ rest else rest

  pub retain-All {μ} :
      (P : K × V → Type μ) (keep : K × V → Bool) (m : Assoc K V) → All P m → All P (retain keep m)
  unfolding retain
  retain-All P keep [] h = tt
  retain-All P keep (a ∷ m) h =
      if-All (All P) (keep a) (h.0, retain-All P keep m h.1) (retain-All P keep m h.1)

  -- What is left satisfies the test.
  pub retain-kept : (keep : K × V → Bool) (m : Assoc K V) → All (λ a. keep a ≡ true) (retain keep m)
  unfolding retain
  retain-kept keep [] = tt
  retain-kept keep (a ∷ m) = elim (Bool-cases (keep a)) [
    | inl e ↦ rw (e) (e, retain-kept keep m)
    | inr e ↦ rw (e) (retain-kept keep m)
  ]

  pub length-retain : (keep : K × V → Bool) (m : Assoc K V) → length (retain keep m) ≤ length m
  unfolding retain
  length-retain keep [] = omega arith
  length-retain keep (a ∷ m) = ground (arith, length-retain keep m)

  pub length-erase : (k : K) (m : Assoc K V) → length (erase k m) ≤ length m
  unfolding erase
  length-erase k [] = omega arith
  length-erase k ((j, v) ∷ m) = ground (arith, length-erase k m)

  pub length-insert : (k : K) (v : V) (m : Assoc K V) → length (insert k v m) ≤ suc (length m)
  unfolding insert
  length-insert k v m = omega (arith, length-erase k m)

  pub lookup-retain :
      (k : K) (keep : K × V → Bool) (m : Assoc K V)
      → lookup k m ≡ none
      → lookup k (retain keep m) ≡ none
  unfolding lookup retain
  lookup-retain k keep [] h = refl
  lookup-retain k keep ((j, v) ∷ m) h = ground (arith, lookup-retain k keep m)

  first_or_rest :
      (k j : K) (w v : V) (m : Assoc K V)
      → lookup k ((j, w) ∷ m) ≡ some v
      → ((j ≡ k) × (w ≡ v)) ⊎ (lookup k m ≡ some v)
  unfolding lookup
  first_or_rest k j w v m h = elim (Bool-cases (e.beq j k)) [
    | inl b ↦ inl ((e.beq_iff j k).0 b, ground arith)
    | inr b ↦ inr (ground arith)
  ]

  -- A value that is found stands in an entry of the key.
  pub lookup-All {μ} :
      (P : K × V → Type μ) (k : K) (v : V) (m : Assoc K V)
      → All P m
      → lookup k m ≡ some v
      → P (k, v)
  unfolding lookup
  lookup-All P k v [] h found = absurd (ground arith)
  lookup-All P k v ((j, w) ∷ m) h found = elim (first_or_rest k j w v m found) [
    | inl s ↦ subst P (λ i. (s.0 i, s.1 i)) h.0
    | inr f ↦ lookup-All P k v m h.1 f
  ]
