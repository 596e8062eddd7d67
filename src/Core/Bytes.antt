-- ===== src/Core/Bytes.antt =====
-- include/dandb/core/Bytes.h and src/core/Bytes.cpp. A byte is a number below 256, and a buffer or
-- span is the list of its bytes.
use dan_db.Prelude.{
  ℕ, zero, suc, ◌<◌, ◌≡◌, refl, Bool, true, false, List, [], ◌∷◌, ◌++◌, arith, ◌==◌, if◌then◌else◌,
  length, All, replicate, set, append_assoc, set-append_right, length-append, ap, ◌∙◌, take, drop,
  slice,
}

abbrev pub Bytes : Type 0
Bytes = List ℕ

abbrev pub IsBytes : Bytes → Type 0
IsBytes = All (λ b. b < 256)

-- PAGE_SIZE (include/dandb/core/Constants.h)
abbrev pub page_size : ℕ
page_size = 4096

unfoldable pub bytes_are_zero : Bytes → Bool
bytes_are_zero [] = true
bytes_are_zero (b ∷ bs) = if b == 0 then bytes_are_zero bs else false

-- The loop that writes 0 over a whole span.
unfoldable pub zero_fill : Bytes → Bytes
zero_fill [] = []
zero_fill (b ∷ bs) = 0 ∷ zero_fill bs

-- The loop that writes an array into a buffer, from `offset` on.
unfoldable pub copy_bytes : Bytes → ℕ → Bytes → Bytes
copy_bytes buffer offset [] = buffer
copy_bytes buffer offset (b ∷ bs) = copy_bytes (set buffer offset b) (suc offset) bs

-- `==` of byte arrays.
unfoldable pub bytes_eq : Bytes → Bytes → Bool
bytes_eq [] [] = true
bytes_eq [] (b ∷ bs) = false
bytes_eq (a ∷ xs) [] = false
bytes_eq (a ∷ xs) (b ∷ bs) = if a == b then bytes_eq xs bs else false

pub bytes_are_zero-replicate : (n : ℕ) → bytes_are_zero (replicate n 0) ≡ true
unfolding bytes_are_zero replicate
bytes_are_zero-replicate zero = refl
bytes_are_zero-replicate (suc n) = bytes_are_zero-replicate n

pub eq_replicate_of_zero :
    (bs : Bytes) (n : ℕ) → length bs ≡ n → bytes_are_zero bs ≡ true → bs ≡ replicate n 0
unfolding bytes_are_zero replicate
eq_replicate_of_zero [] zero h z = refl
eq_replicate_of_zero [] (suc n) h z = absurd (omega arith)
eq_replicate_of_zero (b ∷ bs) zero h z = absurd (omega arith)
eq_replicate_of_zero (b ∷ bs) (suc n) h z = ground (arith, eq_replicate_of_zero bs n)

pub IsBytes-append : (xs ys : Bytes) → IsBytes xs → IsBytes ys → IsBytes (xs ++ ys)
IsBytes-append [] ys h k = k
IsBytes-append (x ∷ xs) ys h k = (h.0, IsBytes-append xs ys h.1 k)

pub IsBytes-take : (n : ℕ) (xs : Bytes) → IsBytes xs → IsBytes (take n xs)
unfolding take
IsBytes-take zero xs h = tt
IsBytes-take (suc n) [] h = tt
IsBytes-take (suc n) (x ∷ xs) h = (h.0, IsBytes-take n xs h.1)

pub IsBytes-drop : (n : ℕ) (xs : Bytes) → IsBytes xs → IsBytes (drop n xs)
unfolding drop
IsBytes-drop zero xs h = h
IsBytes-drop (suc n) [] h = tt
IsBytes-drop (suc n) (x ∷ xs) h = IsBytes-drop n xs h.1

pub IsBytes-slice : (i n : ℕ) (xs : Bytes) → IsBytes xs → IsBytes (slice i n xs)
unfolding slice
IsBytes-slice i n xs h = IsBytes-take n (drop i xs) (IsBytes-drop i xs h)

pub IsBytes-replicate : (n : ℕ) → IsBytes (replicate n 0)
unfolding replicate
IsBytes-replicate zero = tt
IsBytes-replicate (suc n) = (omega arith, IsBytes-replicate n)

pub zero_fill-eq_replicate : (bs : Bytes) (n : ℕ) → length bs ≡ n → zero_fill bs ≡ replicate n 0
unfolding zero_fill replicate
zero_fill-eq_replicate [] zero h = refl
zero_fill-eq_replicate [] (suc n) h = absurd (omega arith)
zero_fill-eq_replicate (b ∷ bs) zero h = absurd (omega arith)
zero_fill-eq_replicate (b ∷ bs) (suc n) h =
    ap (λ t. 0 ∷ t) (zero_fill-eq_replicate bs n (omega arith))

pub copy_bytes-append :
    (offset : ℕ) (xs old ys bs : Bytes)
    → length xs ≡ offset
    → length old ≡ length bs
    → copy_bytes (xs ++ (old ++ ys)) offset bs ≡ xs ++ (bs ++ ys)
unfolding copy_bytes
copy_bytes-append offset xs [] ys [] hx ho = refl
copy_bytes-append offset xs (o ∷ old) ys [] hx ho = absurd (omega arith)
copy_bytes-append offset xs [] ys (b ∷ bs) hx ho = absurd (omega arith)
copy_bytes-append offset xs (o ∷ old) ys (b ∷ bs) hx ho =
    rw (set-append_right xs (old ++ ys) o b offset hx, ← append_assoc xs (b ∷ []) (old ++ ys))
      (copy_bytes-append (suc offset) (xs ++ (b ∷ [])) old ys bs
          (omega (arith, length-append xs (b ∷ []))) (omega arith)
        ∙ append_assoc xs (b ∷ []) (bs ++ ys))

pub eq_of_bytes_eq : (xs ys : Bytes) → bytes_eq xs ys ≡ true → xs ≡ ys
unfolding bytes_eq
eq_of_bytes_eq [] [] h = refl
eq_of_bytes_eq [] (y ∷ ys) h = cc
eq_of_bytes_eq (x ∷ xs) [] h = cc
eq_of_bytes_eq (x ∷ xs) (y ∷ ys) h = ground (arith, eq_of_bytes_eq xs ys)

pub bytes_eq_refl : (xs : Bytes) → bytes_eq xs xs ≡ true
unfolding bytes_eq
bytes_eq_refl [] = refl
bytes_eq_refl (x ∷ xs) = ground (arith, bytes_eq_refl xs)

pub IsBytes-append_right : (xs ys : Bytes) → IsBytes (xs ++ ys) → IsBytes ys
IsBytes-append_right [] ys h = h
IsBytes-append_right (x ∷ xs) ys h = IsBytes-append_right xs ys h.1

pub IsBytes-append_left : (xs ys : Bytes) → IsBytes (xs ++ ys) → IsBytes xs
IsBytes-append_left [] ys h = tt
IsBytes-append_left (x ∷ xs) ys h = (h.0, IsBytes-append_left xs ys h.1)

pub IsBytes-replace :
    (front back : Bytes) (a b : ℕ)
    → b < 256
    → IsBytes (front ++ (a ∷ back))
    → IsBytes (front ++ (b ∷ back))
IsBytes-replace [] back a b hb v = (hb, v.1)
IsBytes-replace (f ∷ front) back a b hb v = (v.0, IsBytes-replace front back a b hb v.1)

pub length-replace :
    (front back : Bytes) (a b : ℕ) → length (front ++ (a ∷ back)) ≡ length (front ++ (b ∷ back))
length-replace [] back a b = refl
length-replace (f ∷ front) back a b = ap suc (length-replace front back a b)
