-- ===== src/Prelude/Lists.antt =====
-- Lists measured and indexed by native numbers, under the library's names.
-- `replicate` is no `abbrev`: buffers of a page's size must not compute inside a proof.
use Prim.Native.Nat.{ℕ, zero, suc, ◌+◌, ◌-◌, ◌≤◌}
use mathlib.Core.Path.{◌≡◌, refl, ap, sym, ◌∙◌}
use mathlib.Core.List.{List, [], ◌∷◌, ◌++◌}
use mathlib.Core.Option.{Option, none, some}
use native.Mathlib.Omega.{arith}

module _ {ℓ} {A : Type ℓ} where
  abbrev pub length : List A → ℕ
  length [] = 0
  length (x ∷ xs) = suc (length xs)

  unfoldable pub get_or : List A → ℕ → A → A
  get_or [] i d = d
  get_or (x ∷ xs) zero d = x
  get_or (x ∷ xs) (suc i) d = get_or xs i d

  unfoldable pub get_elem? : List A → ℕ → Option A
  get_elem? [] i = none
  get_elem? (x ∷ xs) zero = some x
  get_elem? (x ∷ xs) (suc i) = get_elem? xs i

  -- A write out of bounds changes nothing.
  unfoldable pub set : List A → ℕ → A → List A
  set [] i v = []
  set (x ∷ xs) zero v = v ∷ xs
  set (x ∷ xs) (suc i) v = x ∷ set xs i v

  unfoldable pub take : ℕ → List A → List A
  take zero xs = []
  take (suc n) [] = []
  take (suc n) (x ∷ xs) = x ∷ take n xs

  unfoldable pub drop : ℕ → List A → List A
  drop zero xs = xs
  drop (suc n) [] = []
  drop (suc n) (x ∷ xs) = drop n xs

  unfoldable pub replicate : ℕ → A → List A
  replicate zero a = []
  replicate (suc n) a = a ∷ replicate n a

  abbrev pub All {κ} : (A → Type κ) → List A → Type κ
  All P [] = Unit {κ}
  All P (x ∷ xs) = P x × All P xs

module _ {ℓ} {A : Type ℓ} where
  pub length-append : (xs ys : List A) → length (xs ++ ys) ≡ length xs + length ys
  length-append [] ys = omega arith
  length-append (x ∷ xs) ys = omega (arith, length-append xs ys)

  pub length-replicate : (n : ℕ) (a : A) → length (replicate n a) ≡ n
  unfolding replicate
  length-replicate zero a = refl
  length-replicate (suc n) a = ap suc (length-replicate n a)

  pub length-take_le : (n : ℕ) (xs : List A) → n ≤ length xs → length (take n xs) ≡ n
  unfolding take
  length-take_le zero xs h = refl
  length-take_le (suc n) [] h = absurd (omega arith)
  length-take_le (suc n) (x ∷ xs) h = omega (arith, length-take_le n xs)

  pub length-drop : (n : ℕ) (xs : List A) → length (drop n xs) ≡ length xs - n
  unfolding drop
  length-drop zero xs = omega arith
  length-drop (suc n) [] = omega arith
  length-drop (suc n) (x ∷ xs) = omega (arith, length-drop n xs)

  pub take-append-drop : (n : ℕ) (xs : List A) → take n xs ++ drop n xs ≡ xs
  unfolding take drop
  take-append-drop zero xs = refl
  take-append-drop (suc n) [] = refl
  take-append-drop (suc n) (x ∷ xs) = ap (λ t. x ∷ t) (take-append-drop n xs)

  pub take-append_short : (n : ℕ) (xs ys : List A) → n ≤ length xs → take n (xs ++ ys) ≡ take n xs
  unfolding take
  take-append_short zero xs ys h = refl
  take-append_short (suc n) [] ys h = absurd (omega arith)
  take-append_short (suc n) (x ∷ xs) ys h =
      ap (λ t. x ∷ t) (take-append_short n xs ys (omega arith))

  pub take-append_long :
      (n k : ℕ) (xs ys : List A) → length xs + k ≡ n → take n (xs ++ ys) ≡ xs ++ take k ys
  unfolding take
  take-append_long n k [] ys h = let e : n ≡ k = omega arith in rw e
  take-append_long zero k (x ∷ xs) ys h = absurd (omega arith)
  take-append_long (suc n) k (x ∷ xs) ys h =
      ap (λ t. x ∷ t) (take-append_long n k xs ys (omega arith))

  pub drop_all : (xs : List A) → drop (length xs) xs ≡ []
  unfolding drop
  drop_all [] = refl
  drop_all (x ∷ xs) = drop_all xs

  pub take-append_left : (xs ys : List A) (n : ℕ) → length xs ≡ n → take n (xs ++ ys) ≡ xs
  unfolding take
  take-append_left [] ys zero h = refl
  take-append_left [] ys (suc n) h = absurd (omega arith)
  take-append_left (x ∷ xs) ys zero h = absurd (omega arith)
  take-append_left (x ∷ xs) ys (suc n) h = ap (λ t. x ∷ t) (take-append_left xs ys n (omega arith))

  pub drop-append_left : (xs ys : List A) (n : ℕ) → length xs ≡ n → drop n (xs ++ ys) ≡ ys
  unfolding drop
  drop-append_left [] ys zero h = refl
  drop-append_left [] ys (suc n) h = absurd (omega arith)
  drop-append_left (x ∷ xs) ys zero h = absurd (omega arith)
  drop-append_left (x ∷ xs) ys (suc n) h = drop-append_left xs ys n (omega arith)

  pub drop-drop : (m n k : ℕ) (xs : List A) → n + m ≡ k → drop m (drop n xs) ≡ drop k xs
  unfolding drop
  drop-drop m zero k xs h = let e : m ≡ k = omega arith in rw e
  drop-drop zero (suc n) zero [] h = refl
  drop-drop (suc m) (suc n) zero [] h = refl
  drop-drop zero (suc n) (suc k) [] h = refl
  drop-drop (suc m) (suc n) (suc k) [] h = refl
  drop-drop m (suc n) zero (x ∷ xs) h = absurd (omega arith)
  drop-drop m (suc n) (suc k) (x ∷ xs) h = drop-drop m n k xs (omega arith)

  -- `n` elements from index `i`, as `subspan(i, n)`.
  unfoldable pub slice : ℕ → ℕ → List A → List A
  slice i n xs = take n (drop i xs)

  pub length-slice : (i n : ℕ) (xs : List A) → i + n ≤ length xs → length (slice i n xs) ≡ n
  unfolding slice
  length-slice i n xs h = length-take_le n (drop i xs) (omega (arith, length-drop i xs))

  pub slice-append-drop :
      (i n k : ℕ) (xs : List A) → i + n ≡ k → slice i n xs ++ drop k xs ≡ drop i xs
  unfolding slice
  slice-append-drop i n k xs h = rw (← drop-drop n i k xs h) (take-append-drop n (drop i xs))

  pub slice-append_right :
      (xs ys : List A) (i j n : ℕ) → length xs + i ≡ j → slice j n (xs ++ ys) ≡ slice i n ys
  unfolding slice drop
  slice-append_right [] ys i j n h = let e : i ≡ j = omega arith in rw e
  slice-append_right (x ∷ xs) ys i zero n h = absurd (omega arith)
  slice-append_right (x ∷ xs) ys i (suc j) n h = slice-append_right xs ys i j n (omega arith)

  pub slice-append_left : (xs ys : List A) (n : ℕ) → length xs ≡ n → slice 0 n (xs ++ ys) ≡ xs
  unfolding slice drop
  slice-append_left xs ys n h = take-append_left xs ys n h

  pub set-append_right :
      (xs ys : List A) (y v : A) (i : ℕ) → length xs ≡ i → set (xs ++ (y ∷ ys)) i v ≡ xs ++ (v ∷ ys)
  unfolding set
  set-append_right [] ys y v zero h = refl
  set-append_right [] ys y v (suc i) h = absurd (omega arith)
  set-append_right (x ∷ xs) ys y v zero h = absurd (omega arith)
  set-append_right (x ∷ xs) ys y v (suc i) h =
      ap (λ t. x ∷ t) (set-append_right xs ys y v i (omega arith))

  pub get_or-append_right :
      (xs ys : List A) (d : A) (i j : ℕ) → length xs + i ≡ j → get_or (xs ++ ys) j d ≡ get_or ys i d
  unfolding get_or
  get_or-append_right [] ys d i j h = ap (λ (k : ℕ). get_or ys k d) (omega arith)
  get_or-append_right (x ∷ xs) ys d i zero h = absurd (omega arith)
  get_or-append_right (x ∷ xs) ys d i (suc j) h = get_or-append_right xs ys d i j (omega arith)

module _ {ℓ} {A : Type ℓ} (xs ys t u : List A) (same : length xs ≡ length ys)
    (e : xs ++ t ≡ ys ++ u) where
  pub append-cancel_left : xs ≡ ys
  append-cancel_left =
      sym (take-append_left xs t (length ys) same)
      ∙ ap (take (length ys)) e
      ∙ take-append_left ys u (length ys) refl

  pub append-cancel_right : t ≡ u
  append-cancel_right =
      sym (drop-append_left xs t (length ys) same)
      ∙ ap (drop (length ys)) e
      ∙ drop-append_left ys u (length ys) refl
