-- ===== src/Core/Endian/Laws.antt =====
-- What the readers and writers of src/core/Endian.cpp do, as the digits of a number in base 256.
use native.Mathlib.Nat.{pow-suc, div-div-eq-div-mul}
use native.Mathlib.Numerals.{towards_suc}
use dan_db.Prelude.{
  ℕ, zero, suc, ◌+◌, ◌-◌, ◌*◌, ◌/◌, ◌%◌, ◌^◌, ◌≤◌, ◌<◌, bit_and, bit_or, ◌≡⟨◌⟩◌, ◌∎, ◌≡◌, refl, sym,
  ap, ◌∙◌, [], ◌∷◌, ◌++◌, append_assoc, arith, length, get_or, set, slice, take, drop,
  length-append, set-append_right, get_or-append_right, length-take_le, length-drop, length-slice,
  slice-append-drop, take-append-drop, take-append_left, drop-append_left,
}
use dan_db.Prelude.Bits.{bit_and_byte, bit_or_fields}
use dan_db.Core.Status.{ok, err, invalid_argument}
use dan_db.Core.Bytes.{Bytes, IsBytes, IsBytes-slice}
use dan_db.Core.Endian.{write_le_loop, write_le, read_le_loop, read_le}

-- The `n` lowest base-256 digits of `v`, lowest first.
unfoldable pub le_bytes : ℕ → ℕ → Bytes
le_bytes zero v = []
le_bytes (suc n) v = (v % 256) ∷ le_bytes n (v / 256)

-- The number that a list of digits stands for.
unfoldable pub le_value : Bytes → ℕ
le_value [] = 0
le_value (b ∷ bs) = b + 256 * le_value bs

pub length-le_bytes : (n v : ℕ) → length (le_bytes n v) ≡ n
unfolding le_bytes
length-le_bytes zero v = refl
length-le_bytes (suc n) v = ap suc (length-le_bytes n (v / 256))

pub le_bytes-IsBytes : (n v : ℕ) → IsBytes (le_bytes n v)
unfolding le_bytes
le_bytes-IsBytes zero v = tt
le_bytes-IsBytes (suc n) v = (omega arith, le_bytes-IsBytes n (v / 256))

pub le_value-le_bytes : (n v : ℕ) → v < 256 ^ n → le_value (le_bytes n v) ≡ v
unfolding le_bytes le_value
le_value-le_bytes zero zero h = refl
le_value-le_bytes zero (suc v) h = absurd (omega arith)
le_value-le_bytes (suc n) v h =
    omega (arith, le_value-le_bytes n (v / 256) (omega (arith, pow-suc 256 n)))

pub le_bytes-le_value :
    (bs : Bytes) (n : ℕ) → IsBytes bs → length bs ≡ n → le_bytes n (le_value bs) ≡ bs
unfolding le_bytes le_value
le_bytes-le_value [] zero h l = refl
le_bytes-le_value [] (suc n) h l = absurd (omega arith)
le_bytes-le_value (b ∷ bs) zero h l = absurd (omega arith)
le_bytes-le_value (b ∷ bs) (suc n) h l =
    let low : (b + 256 * le_value bs) % 256 ≡ b = omega arith in
    let high : (b + 256 * le_value bs) / 256 ≡ le_value bs = omega arith in
    rw (low, high) (ap (λ t. b ∷ t) (le_bytes-le_value bs n h.1 (omega arith)))

pub le_value-lt : (bs : Bytes) (n : ℕ) → IsBytes bs → length bs ≡ n → le_value bs < 256 ^ n
unfolding le_value
le_value-lt [] zero h l = omega arith
le_value-lt [] (suc n) h l = absurd (omega arith)
le_value-lt (b ∷ bs) zero h l = absurd (omega arith)
le_value-lt (b ∷ bs) (suc n) h l =
    omega (arith, h.0, le_value-lt bs n h.1 (omega arith), pow-suc 256 n)

pow-add_eight : (s : ℕ) → 2 ^ (s + 8) ≡ 2 ^ s * 256
pow-add_eight s = simp towards_suc (omega arith)

pow_byte : (i : ℕ) → 2 ^ (8 * suc i) ≡ 2 ^ (8 * i) * 256
pow_byte i = let e : 8 * suc i ≡ 8 * i + 8 = omega arith in rw e (pow-add_eight (8 * i))

shift_byte : (i v : ℕ) → v / 2 ^ (8 * suc i) ≡ v / 2 ^ (8 * i) / 256
shift_byte i v = rw (pow_byte i, ← div-div-eq-div-mul)

module _ (offset v : ℕ) where
  write_le_loop-append :
      (n i : ℕ) (xs old ys : Bytes)
      → length xs ≡ offset + i
      → length old ≡ n
      → write_le_loop n i (xs ++ (old ++ ys)) offset v ≡ xs ++ (le_bytes n (v / 2 ^ (8 * i)) ++ ys)
  unfolding write_le_loop le_bytes
  write_le_loop-append zero i xs [] ys hx ho = refl
  write_le_loop-append zero i xs (o ∷ old) ys hx ho = absurd (omega arith)
  write_le_loop-append (suc n) i xs [] ys hx ho = absurd (omega arith)
  write_le_loop-append (suc n) i xs (o ∷ old) ys hx ho =
      let b = v / 2 ^ (8 * i) % 256 in
      write_le_loop n (suc i)
        (set (xs ++ (o ∷ (old ++ ys))) (offset + i) (bit_and (v / 2 ^ (8 * i)) 0xff)) offset v
      ≡⟨ (rw (bit_and_byte, set-append_right xs (old ++ ys) o b (offset + i) hx)) ⟩
        write_le_loop n (suc i) (xs ++ (b ∷ (old ++ ys))) offset v
      ≡⟨ (rw (← append_assoc xs (b ∷ []) (old ++ ys))) ⟩
        write_le_loop n (suc i) ((xs ++ (b ∷ [])) ++ (old ++ ys)) offset v
      ≡⟨ write_le_loop-append n (suc i) (xs ++ (b ∷ [])) old ys
          (omega (arith, length-append xs (b ∷ []))) (omega arith) ⟩
        (xs ++ (b ∷ [])) ++ (le_bytes n (v / 2 ^ (8 * suc i)) ++ ys)
      ≡⟨ (rw (append_assoc xs (b ∷ []), shift_byte i v)) ⟩
        xs ++ (b ∷ (le_bytes n (v / 2 ^ (8 * i) / 256) ++ ys)) ∎

-- A write inside the buffer replaces `n` bytes by the digits of the value.
pub write_le-append :
    (n v offset : ℕ) (xs old ys : Bytes)
    → length xs ≡ offset
    → length old ≡ n
    → 0 < n
    → write_le n (xs ++ (old ++ ys)) offset v ≡ ok (xs ++ (le_bytes n v ++ ys))
unfolding write_le
write_le-append n v offset xs old ys hx ho pos = ground (
  arith,
  length-append xs (old ++ ys),
  length-append old ys,
  write_le_loop-append offset v n 0 xs old ys (omega arith) ho,
)

digit_fits : (r b p : ℕ) → r < p → b < 256 → r + b * p < p * 256
digit_fits r b p h k = grind arith

module _ (offset : ℕ) where
  read_le_loop-append :
      (n i r : ℕ) (xs bs ys : Bytes)
      → length xs ≡ offset + i
      → length bs ≡ n
      → r < 2 ^ (8 * i)
      → IsBytes bs
      → read_le_loop n i (xs ++ (bs ++ ys)) offset r ≡ r + le_value bs * 2 ^ (8 * i)
  unfolding read_le_loop le_value
  read_le_loop-append zero i r xs [] ys hx hb hr h = omega arith
  read_le_loop-append zero i r xs (b ∷ bs) ys hx hb hr h = absurd (omega arith)
  read_le_loop-append (suc n) i r xs [] ys hx hb hr h = absurd (omega arith)
  read_le_loop-append (suc n) i r xs (b ∷ bs) ys hx hb hr h =
      let p = 2 ^ (8 * i) in
      read_le_loop n (suc i) (xs ++ (b ∷ (bs ++ ys))) offset
        (bit_or r (get_or (xs ++ (b ∷ (bs ++ ys))) (offset + i) 0 * p))
      ≡⟨ (rw (get_or-append_right xs (b ∷ (bs ++ ys)) 0 0 (offset + i) (omega arith))
          (unfold get_or in refl)) ⟩
        read_le_loop n (suc i) (xs ++ (b ∷ (bs ++ ys))) offset (bit_or r (b * p))
      ≡⟨ (rw (bit_or_fields (8 * i) r b hr, ← append_assoc xs (b ∷ []) (bs ++ ys))) ⟩
        read_le_loop n (suc i) ((xs ++ (b ∷ [])) ++ (bs ++ ys)) offset (r + b * p)
      ≡⟨ read_le_loop-append n (suc i) (r + b * p) (xs ++ (b ∷ [])) bs ys
          (omega (arith, length-append xs (b ∷ []))) (omega arith)
          (rw (pow_byte i) (digit_fits r b p hr h.0)) h.1 ⟩
        r + b * p + le_value bs * 2 ^ (8 * suc i)
      ≡⟨ omega (arith, ap (λ (t : ℕ). le_value bs * t) (pow_byte i)) ⟩
        r + (b + 256 * le_value bs) * p ∎

-- A read inside the buffer returns the number whose digits stand there.
pub read_le-append :
    (n offset : ℕ) (xs bs ys : Bytes)
    → length xs ≡ offset
    → length bs ≡ n
    → 0 < n
    → IsBytes bs
    → read_le n (xs ++ (bs ++ ys)) offset ≡ ok (le_value bs)
unfolding read_le
read_le-append n offset xs bs ys hx hb pos h = ground (
  arith,
  length-append xs (bs ++ ys),
  length-append bs ys,
  read_le_loop-append offset n 0 0 xs bs ys (omega arith) hb (omega arith) h,
)

pub split_at : (i n k : ℕ) (xs : Bytes) → i + n ≡ k → take i xs ++ (slice i n xs ++ drop k xs) ≡ xs
split_at i n k xs h = rw (slice-append-drop i n k xs h) (take-append-drop i xs)

pub read_le-slice :
    (n offset : ℕ) (buffer : Bytes)
    → offset + n ≤ length buffer
    → 0 < n
    → IsBytes buffer
    → read_le n buffer offset ≡ ok (le_value (slice offset n buffer))
read_le-slice n offset buffer fits pos h =
    ap (λ b. read_le n b offset) (sym (split_at offset n (offset + n) buffer refl))
    ∙ read_le-append n offset (take offset buffer) (slice offset n buffer)
        (drop (offset + n) buffer) (length-take_le offset buffer (omega arith))
        (length-slice offset n buffer fits) pos (IsBytes-slice offset n buffer h)

-- Outside the buffer both refuse.
pub read_le-short :
    (n offset : ℕ) (buffer : Bytes)
    → length buffer < offset + n
    → read_le n buffer offset ≡ err invalid_argument
unfolding read_le
read_le-short n offset buffer h = ground arith

pub write_le-short :
    (n offset v : ℕ) (buffer : Bytes)
    → length buffer < offset + n
    → write_le n buffer offset v ≡ err invalid_argument
unfolding write_le
write_le-short n offset v buffer h = ground arith

pub write_le-take :
    (n offset v : ℕ) (buffer : Bytes)
    → offset + n ≤ length buffer
    → 0 < n
    → write_le n buffer offset v
      ≡ ok (take offset buffer ++ (le_bytes n v ++ drop (offset + n) buffer))
write_le-take n offset v buffer fits pos =
    ap (λ b. write_le n b offset v) (sym (split_at offset n (offset + n) buffer refl))
    ∙ write_le-append n v offset (take offset buffer) (slice offset n buffer)
        (drop (offset + n) buffer) (length-take_le offset buffer (omega arith))
        (length-slice offset n buffer fits) pos

-- A number that fits a width of at least one byte, written in little-endian order at an offset where
-- the width fits the buffer, is written without an error and read back from there; the length of the
-- buffer and the bytes before and behind the number stay.
pub read_le-write_le :
    (n offset v : ℕ) (buffer : Bytes)
    → offset + n ≤ length buffer
    → 0 < n
    → v < 256 ^ n
    → (out : Bytes) × (write_le n buffer offset v ≡ ok out)
      × (read_le n out offset ≡ ok v)
      × (length out ≡ length buffer)
      × (take offset out ≡ take offset buffer)
      × (drop (offset + n) out ≡ drop (offset + n) buffer)
read_le-write_le n offset v buffer fits pos hv =
    let front = take offset buffer in
    let back = drop (offset + n) buffer in
    let hf : length front ≡ offset = length-take_le offset buffer (omega arith) in
    let hl : length (le_bytes n v ++ back) ≡ length buffer - offset = omega (
      arith,
      length-append (le_bytes n v) back,
      length-le_bytes n v,
      length-drop (offset + n) buffer,
    ) in
    (
      front ++ (le_bytes n v ++ back),
      write_le-take n offset v buffer fits pos,
      read_le-append n offset front (le_bytes n v) back hf (length-le_bytes n v) pos
            (le_bytes-IsBytes n v)
          ∙ ap ok (le_value-le_bytes n v hv),
      omega (arith, length-append front (le_bytes n v ++ back)),
      take-append_left front (le_bytes n v ++ back) offset hf,
      rw (← append_assoc front (le_bytes n v) back) (
          drop-append_left (front ++ le_bytes n v) back (offset + n)
            (omega (arith, length-append front (le_bytes n v), length-le_bytes n v))),
    )
