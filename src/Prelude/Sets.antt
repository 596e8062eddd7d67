-- ===== src/Prelude/Sets.antt =====
-- Lists of distinct numbers, and the last element of a list.
use dan_db.Prelude.Tests.{◌==◌, if◌then◌else◌, Bool-cases, ==→eq}
use Prim.Native.Nat.{ℕ}
use mathlib.Core.Path.{◌≡◌, refl, ap, sym, ◌∙◌}
use mathlib.Core.Logic.{◌⊎◌, inl, inr}
use mathlib.Core.Bool.{Bool, true, false}
use mathlib.Core.Option.{Option, none, some}
use mathlib.Core.List.{List, [], ◌∷◌, ◌++◌}
use native.Mathlib.Omega.{arith}

unfoldable pub contains : ℕ → List ℕ → Bool
contains k [] = false
contains k (x ∷ xs) = let rest = contains k xs in if x == k then true else rest

-- No number twice.
unfoldable pub IsOnce : List ℕ → Type 0
unfolding contains
IsOnce [] = Unit
IsOnce (x ∷ xs) = (contains x xs ≡ false) × IsOnce xs

-- One element less.
unfoldable pub remove : ℕ → List ℕ → List ℕ
remove k [] = []
remove k (x ∷ xs) = let rest = remove k xs in if x == k then xs else x ∷ rest

-- back() and pop_back().
unfoldable pub pop_back_onto {ℓ} : {A : Type ℓ} → A → Option (List A × A) → List A × A
pop_back_onto x none = ([], x)
pop_back_onto x (some (ys, y)) = (x ∷ ys, y)

unfoldable pub pop_back {ℓ} : {A : Type ℓ} → List A → Option (List A × A)
unfolding pop_back_onto
pop_back [] = none
pop_back (x ∷ xs) = some (pop_back_onto x (pop_back xs))

pub pop_back-snoc {ℓ} :
    {A : Type ℓ} (xs : List A) (y : A) → pop_back (xs ++ (y ∷ [])) ≡ some (xs, y)
unfolding pop_back pop_back_onto
pop_back-snoc [] y = refl
pop_back-snoc (x ∷ xs) y = ap (λ r. some (pop_back_onto x r)) (pop_back-snoc xs y)

pub pop_back-cases {ℓ} :
    {A : Type ℓ} (xs : List A)
    → (xs ≡ []) ⊎ ((ys : List A) × (y : A) × (xs ≡ ys ++ (y ∷ [])) × (pop_back xs ≡ some (ys, y)))
unfolding pop_back pop_back_onto
pop_back-cases [] = inl refl
pop_back-cases {A = A} (x ∷ xs) = elim (pop_back-cases xs) [
  | inl e ↦ inr ([], x, ap (λ t. x ∷ t) e, ap (λ (t : List A). pop_back (x ∷ t)) e)
  | inr (ys, y, e, p) ↦ inr (x ∷ ys, y, ap (λ t. x ∷ t) e, ap (λ r. some (pop_back_onto x r)) p)
]

pub contains-remove :
    (k j : ℕ) (xs : List ℕ)
    → IsOnce xs
    → contains j (remove k xs) ≡ (if k == j then false else contains j xs)
unfolding contains remove IsOnce
contains-remove k j [] once = ground arith
contains-remove k j (x ∷ xs) once = elim (Bool-cases (x == k)) [
  | inl same ↦
      let e : x ≡ k = ==→eq x k same in
      let absent : contains k xs ≡ false = ap (λ (n : ℕ). contains n xs) (sym e) ∙ once.0 in
      elim (Bool-cases (k == j)) [
        | inl here ↦
            let e' : k ≡ j = ==→eq k j here in
            rw (same, here) (ap (λ (n : ℕ). contains n xs) (sym e') ∙ absent)
        | inr other ↦ ground (arith, same, other)
      ]
  | inr other ↦ ground (arith, other, contains-remove k j xs once.1)
]

pub remove-IsOnce : (k : ℕ) (xs : List ℕ) → IsOnce xs → IsOnce (remove k xs)
unfolding IsOnce remove contains
remove-IsOnce k [] once = once
remove-IsOnce k (x ∷ xs) once = elim (Bool-cases (x == k)) [
  | inl same ↦ rw same once.1
  | inr other ↦
      let absent : contains x (remove k xs) ≡ false =
        ground (arith, contains-remove k x xs once.1, once.0) in
      rw other (absent, remove-IsOnce k xs once.1)
]

pub contains-snoc :
    (k y : ℕ) (xs : List ℕ) → contains k (xs ++ (y ∷ [])) ≡ (if y == k then true else contains k xs)
unfolding contains
contains-snoc k y [] = ground arith
contains-snoc k y (x ∷ xs) = ground (arith, contains-snoc k y xs)

pub snoc-IsOnce :
    (xs : List ℕ) (y : ℕ) → IsOnce (xs ++ (y ∷ [])) → IsOnce xs × (contains y xs ≡ false)
unfolding IsOnce contains
snoc-IsOnce [] y once = (tt, refl)
snoc-IsOnce (x ∷ xs) y once =
    let (rest, absent) = snoc-IsOnce xs y once.1 in
    let apart : contains x xs ≡ false = ground (arith, once.0, contains-snoc x y xs) in
    let other : contains y (x ∷ xs) ≡ false =
      ground (arith, once.0, absent, contains-snoc x y xs) in
    ((apart, rest), other)

pub IsOnce-snoc :
    (xs : List ℕ) (y : ℕ) → IsOnce xs → contains y xs ≡ false → IsOnce (xs ++ (y ∷ []))
unfolding IsOnce contains
IsOnce-snoc [] y once absent = (refl, tt)
IsOnce-snoc (x ∷ xs) y once absent =
    let apart : contains x (xs ++ (y ∷ [])) ≡ false =
      ground (arith, once.0, absent, contains-snoc x y xs) in
    let rest : contains y xs ≡ false = ground (arith, absent) in
    (apart, IsOnce-snoc xs y once.1 rest)
