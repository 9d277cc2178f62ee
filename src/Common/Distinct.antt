-- ===== src/Common/Distinct.antt =====
-- Dictionaries with distinct keys, as the standard container has them. On these, inserting the
-- pairs one by one, as the loaders do, rebuilds the same list.
use ncloud.Common.Tests.{Bool-cases}
use ncloud.Common.Text.{Bytes, bytes_eq, bytes_eq_iff}
use ncloud.Common.Dict.{Dict, lookup, insert, erase, lookup-insert, lookup-erase}
use mathlib.Core.Logic.{inl, inr}
use mathlib.Core.Path.{◌≡◌, refl, ap}
use mathlib.Core.Option.{none}
use mathlib.Core.List.{[], ◌∷◌, ◌++◌}
use native.Mathlib.Omega.{arith}

module _ {ℓ} {V : Type ℓ} where
  abbrev pub Distinct : Dict V → Type ℓ
  Distinct [] = Unit
  Distinct ((k, v) ∷ m) = (lookup k m ≡ none) × Distinct m

  pub insert-Distinct : (k : Bytes) (v : V) (m : Dict V) → Distinct m → Distinct (insert k v m)
  unfolding insert
  insert-Distinct k v [] d = (unfold lookup in refl, tt)
  insert-Distinct k v ((j, w) ∷ m) d = elim (Bool-cases (bytes_eq j k)) [
    | inl e ↦ rw e d
    | inr e ↦ rw e (
      ground (arith, lookup-insert k j v m, bytes_eq_iff k j, bytes_eq_iff j k, d.0),
      insert-Distinct k v m d.1,
    )
  ]

  pub erase-Distinct : (k : Bytes) (m : Dict V) → Distinct m → Distinct (erase k m)
  unfolding erase
  erase-Distinct k [] d = tt
  erase-Distinct k ((j, w) ∷ m) d = elim (Bool-cases (bytes_eq j k)) [
    | inl e ↦ rw e (erase-Distinct k m d.1)
    | inr e ↦ rw e (ground (arith, lookup-erase k j m, d.0), erase-Distinct k m d.1)
  ]

  pub insert-fresh :
      (k : Bytes) (v : V) (m : Dict V) → lookup k m ≡ none → insert k v m ≡ m ++ (k, v) ∷ []
  unfolding insert lookup
  insert-fresh k v [] h = refl
  insert-fresh k v ((j, w) ∷ m) h = elim (Bool-cases (bytes_eq j k)) [
    | inl e ↦ ground (arith, e, h)
    | inr e ↦ rw e (ap (λ (l : Dict V). (j, w) ∷ l) (insert-fresh k v m (rw e at h)))
  ]

  lookup-append_none : (k : Bytes) (a b : Dict V) → lookup k (a ++ b) ≡ none → lookup k b ≡ none
  unfolding lookup
  lookup-append_none k [] b h = h
  lookup-append_none k ((j, w) ∷ a) b h = elim (Bool-cases (bytes_eq j k)) [
    | inl e ↦ ground (arith, e, h)
    | inr e ↦ lookup-append_none k a b (rw e at h)
  ]

  -- In a dictionary that splits, the key at the split is not in the first part.
  pub Distinct-split :
      (a : Dict V) (k : Bytes) (v : V) (b : Dict V) → Distinct (a ++ (k, v) ∷ b) → lookup k a ≡ none
  unfolding lookup
  Distinct-split [] k v b d = refl
  Distinct-split ((j, w) ∷ a) k v b d = ground (
    arith,
    lookup-append_none j a ((k, v) ∷ b) d.0,
    bytes_eq_iff k j,
    bytes_eq_iff j k,
    Distinct-split a k v b d.1,
  )
