-- ===== src/Common/Assoc.antt =====
-- A Go map as an association list with at most one entry for a key: `m[k]`, `m[k] = v` and
-- `delete(m, k)`, over any type of keys with a Boolean equality.
use Prim.Native.Nat.{ℕ, suc, ◌≤◌}
use mediarr.Common.Lists.{length}
use Prim.Native.String.{String}
use mathlib.Core.Path.{◌≡◌, refl, sym, ◌∙◌}
use mathlib.Core.Logic.{◌↔◌, ◌≢◌}
use mathlib.Core.Bool.{Bool, true}
use mediarr.Common.Tests.{Bool-cases}
use mathlib.Core.Logic.{inl, inr}
use mathlib.Core.List.{List, [], ◌∷◌, ◌++◌}
use mathlib.Core.Option.{Option, none, some}
use native.Mathlib.Omega.{arith}
use text.Mathlib.Text.{◌==◌ as str_eq}
use text.Mathlib.TextEquality.{eq_iff}
use mediarr.Common.Tests.{◌==◌, ==_iff, if◌then◌else◌}

pub record Eq {ℓ} (A : Type ℓ) : Type ℓ where
  pub beq : A → A → Bool
  pub beq_iff : (a b : A) → (beq a b ≡ true) ↔ (a ≡ b)

instance abbrev pub nat_eq : Eq ℕ
nat_eq = record { beq = ◌==◌; beq_iff = ==_iff }

instance abbrev pub string_eq : Eq String
string_eq = record { beq = str_eq; beq_iff = eq_iff }

module _ {ℓ κ} {K : Type ℓ} ⦃e : Eq K⦄ {V : Type κ} where
  unfoldable pub lookup : K → List (K × V) → Option V
  lookup k [] = none
  lookup k ((j, v) ∷ m) = if e.beq j k then some v else lookup k m

  unfoldable pub insert : K → V → List (K × V) → List (K × V)
  insert k v [] = (k, v) ∷ []
  insert k v ((j, w) ∷ m) = if e.beq j k then (k, v) ∷ m else (j, w) ∷ insert k v m

  unfoldable pub delete : K → List (K × V) → List (K × V)
  delete k [] = []
  delete k ((j, w) ∷ m) = let rest = delete k m in if e.beq j k then rest else (j, w) ∷ rest

  pub lookup-insert :
      (k j : K) (v : V) (m : List (K × V))
      → lookup j (insert k v m) ≡ (if e.beq k j then some v else lookup j m)
  unfolding lookup insert
  lookup-insert k j v [] = refl
  lookup-insert k j v ((i, w) ∷ m) =
      ground (arith, e.beq_iff k j, e.beq_iff i k, e.beq_iff i j, lookup-insert k j v m)

  pub lookup-delete :
      (k j : K) (m : List (K × V))
      → lookup j (delete k m) ≡ (if e.beq k j then none else lookup j m)
  unfolding lookup delete
  lookup-delete k j [] = ground arith
  lookup-delete k j ((i, w) ∷ m) =
      ground (arith, e.beq_iff k j, e.beq_iff i k, e.beq_iff i j, lookup-delete k j m)

  pub lookup-insert_self : (k : K) (v : V) (m : List (K × V)) → lookup k (insert k v m) ≡ some v
  lookup-insert_self k v m = rw (lookup-insert k k v m) (ground (arith, e.beq_iff k k))

  pub lookup-delete_self : (k : K) (m : List (K × V)) → lookup k (delete k m) ≡ none
  lookup-delete_self k m = rw (lookup-delete k k m) (ground (arith, e.beq_iff k k))

  pub lookup-insert_ne :
      (k j : K) (v : V) (m : List (K × V)) → k ≢ j → lookup j (insert k v m) ≡ lookup j m
  lookup-insert_ne k j v m h = rw (lookup-insert k j v m) (ground (arith, e.beq_iff k j))

  pub lookup-delete_ne : (k j : K) (m : List (K × V)) → k ≢ j → lookup j (delete k m) ≡ lookup j m
  lookup-delete_ne k j m h = rw (lookup-delete k j m) (ground (arith, e.beq_iff k j))

  -- No key has two entries.
  abbrev pub HasUniqueKeys : List (K × V) → Type (ℓ ⊔ κ)
  HasUniqueKeys [] = Unit
  HasUniqueKeys ((k, v) ∷ m) = (lookup k m ≡ none) × HasUniqueKeys m

  pub insert-HasUniqueKeys :
      (k : K) (v : V) (m : List (K × V)) → HasUniqueKeys m → HasUniqueKeys (insert k v m)
  unfolding insert
  insert-HasUniqueKeys k v [] h = (unfold lookup in refl, tt)
  insert-HasUniqueKeys k v ((j, w) ∷ m) h = elim (Bool-cases (e.beq j k)) [
    | inl same ↦ rw same (rw ((e.beq_iff j k).0 same) at h.0, h.1)
    | inr other ↦ rw other (
      lookup-insert_ne k j v m (λ p. cc ((e.beq_iff j k).1 (sym p))) ∙ h.0,
      insert-HasUniqueKeys k v m h.1,
    )
  ]

  pub delete-HasUniqueKeys :
      (k : K) (m : List (K × V)) → HasUniqueKeys m → HasUniqueKeys (delete k m)
  unfolding delete
  delete-HasUniqueKeys k [] h = tt
  delete-HasUniqueKeys k ((j, w) ∷ m) h = elim (Bool-cases (e.beq j k)) [
    | inl same ↦ rw same (delete-HasUniqueKeys k m h.1)
    | inr other ↦ rw other (
      lookup-delete_ne k j m (λ p. cc ((e.beq_iff j k).1 (sym p))) ∙ h.0,
      delete-HasUniqueKeys k m h.1,
    )
  ]

  pub delete_absent : (k : K) (m : List (K × V)) → lookup k m ≡ none → delete k m ≡ m
  unfolding delete lookup
  delete_absent k [] h = refl
  delete_absent k ((j, w) ∷ m) h = ground (arith, delete_absent k m)

  pub lookup_conflict :
      (m : List (K × V)) {j k : K} {v : V} → j ≡ k → lookup j m ≡ none → lookup k m ≡ some v → ⊥
  lookup_conflict m p e h = cc

  lookup_there :
      (k : K) (v : V) (m rest : List (K × V)) → (w : V) × (lookup k (m ++ (k, v) ∷ rest) ≡ some w)
  unfolding lookup
  lookup_there k v [] rest = (v, ground (arith, e.beq_iff k k))
  lookup_there k v ((j, w) ∷ m) rest = elim (Bool-cases (e.beq j k)) [
    | inl same ↦ rw same (w, refl)
    | inr other ↦ rw other (lookup_there k v m rest)
  ]

  -- The key of a later entry is not among the earlier ones.
  pub unique_absent :
      (k : K) (v : V) (m rest : List (K × V))
      → HasUniqueKeys (m ++ (k, v) ∷ rest)
      → lookup k m ≡ none
  unfolding lookup
  unique_absent k v [] rest u = refl
  unique_absent k v ((j, w) ∷ m) rest (u, us) = elim (Bool-cases (e.beq j k)) [
    | inl same ↦
        let (w, h) = lookup_there k v m rest in
        absurd (lookup_conflict (m ++ (k, v) ∷ rest) ((e.beq_iff j k).0 same) u h)
    | inr other ↦ rw other (unique_absent k v m rest us)
  ]

  pub insert_absent :
      (k : K) (v : V) (m : List (K × V)) → lookup k m ≡ none → insert k v m ≡ m ++ (k, v) ∷ []
  unfolding insert lookup
  insert_absent k v [] h = refl
  insert_absent k v ((j, w) ∷ m) h = ground (arith, insert_absent k v m)

  pub length-insert_le : (k : K) (v : V) (m : List (K × V)) → length (insert k v m) ≤ suc (length m)
  unfolding insert
  length-insert_le k v [] = omega arith
  length-insert_le k v ((j, w) ∷ m) = ground (arith, length-insert_le k v m)

  pub length-delete_le : (k : K) (m : List (K × V)) → length (delete k m) ≤ length m
  unfolding delete
  length-delete_le k [] = omega arith
  length-delete_le k ((j, w) ∷ m) = ground (arith, length-delete_le k m)
