-- ===== src/Prelude/Keys.antt =====
-- The keys of an association list.
use dan_db.Prelude.Tests.{◌==◌, if◌then◌else◌, Bool-cases, ==→eq, ==_refl}
use dan_db.Prelude.Lists.{All}
use dan_db.Prelude.Map.{Map, lookup, insert}
use dan_db.Prelude.Sets.{contains, IsOnce}
use Prim.Native.Nat.{ℕ}
use mathlib.Core.Path.{◌≡◌, refl, ap, sym, ◌∙◌}
use mathlib.Core.Logic.{inl, inr}
use mathlib.Core.Bool.{true, false}
use mathlib.Core.Option.{none, some}
use mathlib.Core.List.{List, [], ◌∷◌}
use native.Mathlib.Omega.{arith}

module _ {ℓ} {V : Type ℓ} where
  unfoldable pub keys : Map V → List ℕ
  keys [] = []
  keys ((key, value) ∷ rest) = key ∷ keys rest

  contains-keys-insert :
      (key asked : ℕ) (value : V) (m : Map V)
      → contains asked (keys (insert key value m))
        ≡ (if key == asked then true else contains asked (keys m))
  unfolding keys insert contains
  contains-keys-insert key asked value [] = ground arith
  contains-keys-insert key asked value ((other, old) ∷ rest) =
      ground (arith, contains-keys-insert key asked value rest)

  pub insert-IsOnce :
      (key : ℕ) (value : V) (m : Map V) → IsOnce (keys m) → IsOnce (keys (insert key value m))
  unfolding keys insert IsOnce
  insert-IsOnce key value [] once = (refl, tt)
  insert-IsOnce key value ((other, old) ∷ rest) once = elim (Bool-cases (other == key)) [
    | inl same ↦ rw same (rw⁻¹ (==→eq other key same) once.0, once.1)
    | inr apart ↦ rw apart (
      ground (arith, apart, once.0, contains-keys-insert key other value rest),
      insert-IsOnce key value rest once.1,
    )
  ]

  pub lookup-absent : (key : ℕ) (m : Map V) → contains key (keys m) ≡ false → lookup key m ≡ none
  unfolding keys contains lookup
  lookup-absent key [] h = refl
  lookup-absent key ((other, value) ∷ rest) h = ground (arith, h, lookup-absent key rest)

  -- What holds of all that a lookup finds holds of all entries.
  pub lookup-All {κ} :
      (P : ℕ × V → Type κ) (m : Map V)
      → IsOnce (keys m)
      → ((key : ℕ) (value : V) → lookup key m ≡ some value → P (key, value))
      → All P m
  unfolding keys lookup IsOnce
  lookup-All P [] once h = tt
  lookup-All P ((key, value) ∷ rest) once h = (
    h key value (rw (==_refl key) refl),
    lookup-All P rest once.1 (λ asked found e. h asked found (elim (Bool-cases (key == asked)) [
      | inl same ↦ absurd (
          cc (
            e,
            lookup-absent asked rest
                (ap (λ k. contains k (keys rest)) (sym (==→eq key asked same)) ∙ once.0),
          ))
      | inr apart ↦ rw apart e
    ])),
  )
