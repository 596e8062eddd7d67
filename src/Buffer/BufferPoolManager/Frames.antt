-- ===== src/Buffer/BufferPoolManager/Frames.antt =====
-- The frame table of src/buffer/BufferPoolManager.cpp: a write reaches one frame.
use dan_db.Prelude.{
  ℕ, zero, suc, ◌<◌, ◌≡◌, refl, false, List, [], ◌∷◌, arith, ◌==◌, if◌then◌else◌, length, get_or,
  set, replicate, ltb, Bool-cases, inl, inr, ==→eq, sym,
}
use dan_db.Prelude.Sets.{contains, IsOnce, contains-snoc, IsOnce-snoc}
use dan_db.Buffer.BufferPoolManager.{iota}

pub length-set {ℓ} : {A : Type ℓ} (xs : List A) (i : ℕ) (v : A) → length (set xs i v) ≡ length xs
unfolding set
length-set [] i v = refl
length-set (x ∷ xs) zero v = refl
length-set (x ∷ xs) (suc i) v = omega (arith, length-set xs i v)

pub get_or-set_same {ℓ} :
    {A : Type ℓ} (xs : List A) (i : ℕ) (v d : A) → i < length xs → get_or (set xs i v) i d ≡ v
unfolding set get_or
get_or-set_same [] i v d h = absurd (omega arith)
get_or-set_same (x ∷ xs) zero v d h = refl
get_or-set_same (x ∷ xs) (suc i) v d h = get_or-set_same xs i v d (omega arith)

pub get_or-set_other {ℓ} :
    {A : Type ℓ} (xs : List A) (i j : ℕ) (v d : A)
    → (i == j) ≡ false
    → get_or (set xs i v) j d ≡ get_or xs j d
unfolding set get_or
get_or-set_other [] i j v d h = refl
get_or-set_other (x ∷ xs) zero zero v d h = absurd (ground (arith, h))
get_or-set_other (x ∷ xs) zero (suc j) v d h = refl
get_or-set_other (x ∷ xs) (suc i) zero v d h = refl
get_or-set_other (x ∷ xs) (suc i) (suc j) v d h = get_or-set_other xs i j v d (ground (arith, h))

pub get_or-replicate {ℓ} : {A : Type ℓ} (n i : ℕ) (v : A) → get_or (replicate n v) i v ≡ v
unfolding replicate get_or
get_or-replicate zero i v = refl
get_or-replicate (suc n) zero v = refl
get_or-replicate (suc n) (suc i) v = get_or-replicate n i v

pub contains-iota : (n f : ℕ) → contains f (iota n) ≡ ltb f n
unfolding iota contains
contains-iota zero f = ground arith
contains-iota (suc n) f = ground (arith, contains-snoc f n (iota n), contains-iota n f)

pub iota-IsOnce : (n : ℕ) → IsOnce (iota n)
unfolding iota IsOnce
iota-IsOnce zero = tt
iota-IsOnce (suc n) = IsOnce-snoc (iota n) n (iota-IsOnce n) (ground (arith, contains-iota n n))

pub get_or-set {ℓ} :
    {A : Type ℓ} (xs : List A) (i j : ℕ) (v d : A)
    → i < length xs
    → get_or (set xs i v) j d ≡ (if i == j then v else get_or xs j d)
get_or-set xs i j v d h = elim (Bool-cases (i == j)) [
  | inl here ↦ let e : j ≡ i = sym (==→eq i j here) in rw (here, e) (get_or-set_same xs i v d h)
  | inr other ↦ rw other (get_or-set_other xs i j v d other)
]
