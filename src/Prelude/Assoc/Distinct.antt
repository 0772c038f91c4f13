-- ===== src/Prelude/Assoc/Distinct.antt =====
-- Dictionaries that have each key once, and their sizes.
use wealthfinder.Prelude.Tests.{Bool-cases}
use wealthfinder.Prelude.Lists.{length}
use Prim.Native.Nat.{suc}
use mathlib.Core.Path.{◌≡◌, refl, ap}
use mathlib.Core.Logic.{inl, inr}
use mathlib.Core.Bool.{false}
use mathlib.Core.Option.{Option, none, some}
use mathlib.Core.List.{List, [], ◌∷◌}
use native.Mathlib.Omega.{arith}
use wealthfinder.Prelude.Equality.{Eq, ◌==◌}
use wealthfinder.Prelude.Assoc.{lookup, insert, remove, lookup-insert, lookup-remove}

module _ {ℓ κ} {K : Type ℓ} {V : Type κ} ⦃e : Eq K⦄ where
  abbrev pub Distinct : List (K × V) → Type κ
  Distinct [] = Unit
  Distinct ((key, val) ∷ rest) = (lookup key rest ≡ none) × Distinct rest

  other_key : (k key : K) (o o' : Option V) → (key == k) ≡ false → (k == key) ≡ false
  other_key k key o o' h = ground (arith, e.beq_iff k key, e.beq_iff key k)

  pub insert-Distinct : (k : K) (v : V) (d : List (K × V)) → Distinct d → Distinct (insert k v d)
  unfolding insert
  insert-Distinct k v [] p = (unfold lookup in refl, tt)
  insert-Distinct k v ((key, old) ∷ rest) (fresh, p) = elim (Bool-cases (key == k)) [
    | inl same ↦ rw same (rw ((e.beq_iff key k).0 same) at fresh, p)
    | inr differs ↦ rw differs (
      rw (lookup-insert k key v rest, other_key k key (some v) none differs) fresh,
      insert-Distinct k v rest p,
    )
  ]

  pub remove-Distinct : (k : K) (d : List (K × V)) → Distinct d → Distinct (remove k d)
  unfolding remove
  remove-Distinct k [] p = tt
  remove-Distinct k ((key, old) ∷ rest) (fresh, p) = elim (Bool-cases (key == k)) [
    | inl same ↦ rw same (remove-Distinct k rest p)
    | inr differs ↦ rw differs (
      rw (lookup-remove k key rest, other_key k key none none differs) fresh,
      remove-Distinct k rest p,
    )
  ]

  pub length-insert_new :
      (k : K) (v : V) (d : List (K × V))
      → lookup k d ≡ none
      → length (insert k v d) ≡ suc (length d)
  unfolding insert lookup
  length-insert_new k v [] h = refl
  length-insert_new k v ((key, old) ∷ rest) h = ground (arith, length-insert_new k v rest)

  pub length-insert_old :
      (k : K) (v : V) {w : V} (d : List (K × V))
      → lookup k d ≡ some w
      → length (insert k v d) ≡ length d
  unfolding insert lookup
  length-insert_old k v {w} [] h = absurd (cc)
  length-insert_old k v {w} ((key, old) ∷ rest) h =
      ground (arith, length-insert_old k v {w = w} rest)

  remove_missing : (k : K) (d : List (K × V)) → lookup k d ≡ none → length (remove k d) ≡ length d
  unfolding remove lookup
  remove_missing k [] h = refl
  remove_missing k ((key, old) ∷ rest) h = ground (arith, remove_missing k rest)

  pub length-remove :
      (k : K) {w : V} (d : List (K × V))
      → Distinct d
      → lookup k d ≡ some w
      → suc (length (remove k d)) ≡ length d
  unfolding remove lookup
  length-remove k [] p h = absurd (cc)
  length-remove k ((key, old) ∷ rest) (fresh, p) h = elim (Bool-cases (key == k)) [
    | inl same ↦ rw same (ap suc (remove_missing k rest (rw ((e.beq_iff key k).0 same) at fresh)))
    | inr differs ↦ rw differs (ap suc (length-remove k rest p (rw differs at h)))
  ]
