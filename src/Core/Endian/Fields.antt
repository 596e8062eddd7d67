-- ===== src/Core/Endian/Fields.antt =====
-- Buffers that are rows of fixed fields, as src/wal and src/storage write them: each field is
-- written behind those before it, into zeros, and a checksum of all of them may close the row.
use native.Mathlib.Decide.{dec_lt}
use native.Mathlib.Nat.{le_refl}
use dan_db.Prelude.{
  ℕ, zero, suc, ◌+◌, ◌-◌, ◌^◌, ◌≤◌, ◌<◌, ◌≡◌, ◌≢◌, refl, sym, ap, ◌∙◌, ◌∷◌, ◌++◌, append_assoc,
  append-nil, arith, length, slice, take, drop, replicate, length-append, length-replicate,
  slice-append-drop, length-slice, length-take_le, take-append-drop, take-append_left, drop_all,
  append-cancel_left, append-cancel_right,
}
use dan_db.Core.Status.{ok}
use dan_db.Core.Bytes.{Bytes, IsBytes, IsBytes-slice, IsBytes-take, copy_bytes, copy_bytes-append}
use dan_db.Core.Endian.{write_le, read_le}
use dan_db.Core.Endian.Laws.{
  le_bytes, le_value, length-le_bytes, le_bytes-IsBytes, le_value-le_bytes, le_bytes-le_value,
  le_value-lt, write_le-append, read_le-append, read_le-slice,
}
use dan_db.Core.Checksum.{checksum, default_seed}
use dan_db.Core.Checksum.Laws.{checksum-lt, checksum-ne_of_one_byte}

pub replicate-split :
    (n k m : ℕ) → m ≡ n + k → replicate {A = ℕ} m 0 ≡ replicate n 0 ++ replicate k 0
unfolding replicate
replicate-split zero k m h = let e : m ≡ k = omega arith in rw e
replicate-split (suc n) k zero h = absurd (omega arith)
replicate-split (suc n) k (suc m) h = ap (λ t. 0 ∷ t) (replicate-split n k m (omega arith))

-- The next field, behind `xs` and in front of `k` zeros.
pub write_le-zeros :
    (n k m v offset : ℕ) (xs : Bytes)
    → length xs ≡ offset
    → m ≡ n + k
    → 0 < n
    → write_le n (xs ++ replicate m 0) offset v ≡ ok ((xs ++ le_bytes n v) ++ replicate k 0)
write_le-zeros n k m v offset xs hx hm pos =
    ap (λ t. write_le n (xs ++ t) offset v) (replicate-split n k m hm)
    ∙ write_le-append n v offset xs (replicate n 0) (replicate k 0) hx (length-replicate n 0) pos
    ∙ ap ok (sym (append_assoc xs (le_bytes n v) (replicate k 0)))

pub copy_bytes-zeros :
    (n k m offset : ℕ) (xs bs : Bytes)
    → length xs ≡ offset
    → length bs ≡ n
    → m ≡ n + k
    → copy_bytes (xs ++ replicate m 0) offset bs ≡ (xs ++ bs) ++ replicate k 0
copy_bytes-zeros n k m offset xs bs hx hb hm =
    ap (λ t. copy_bytes (xs ++ t) offset bs) (replicate-split n k m hm)
    ∙ copy_bytes-append offset xs (replicate n 0) (replicate k 0) bs hx
        (length-replicate n 0 ∙ sym hb)
    ∙ sym (append_assoc xs bs (replicate k 0))

module _ (n : ℕ) (pos : 0 < n) where
  -- A field is found behind what stands in front of it.
  pub read_le-field :
      (offset v : ℕ) (xs ys : Bytes)
      → length xs ≡ offset
      → v < 256 ^ n
      → read_le n (xs ++ (le_bytes n v ++ ys)) offset ≡ ok v
  read_le-field offset v xs ys hx hv =
      read_le-append n offset xs (le_bytes n v) ys hx (length-le_bytes n v) pos
        (le_bytes-IsBytes n v)
      ∙ ap ok (le_value-le_bytes n v hv)

  -- The same, of a row that can be read as such a split.
  pub read_le-split :
      {bytes : Bytes} (offset v : ℕ) (xs ys : Bytes)
      → bytes ≡ xs ++ (le_bytes n v ++ ys)
      → length xs ≡ offset
      → v < 256 ^ n
      → read_le n bytes offset ≡ ok v
  read_le-split offset v xs ys e hx hv =
      ap (λ t. read_le n t offset) e ∙ read_le-field offset v xs ys hx hv

  -- A number that was read is the field that stands there.
  pub drop-field :
      (offset k v : ℕ) (bytes : Bytes)
      → offset + n ≡ k
      → k ≤ length bytes
      → IsBytes bytes
      → read_le n bytes offset ≡ ok v
      → drop offset bytes ≡ le_bytes n v ++ drop k bytes
  drop-field offset k v bytes hk fits h r =
      let here = slice offset n bytes in
      let hl = length-slice offset n bytes (omega arith) in
      let hb = IsBytes-slice offset n bytes h in
      let value : le_value here ≡ v = cc (read_le-slice n offset bytes (omega arith) pos h) in
      let digits : le_bytes n v ≡ here = rw (← value) (le_bytes-le_value here n hb hl) in
      rw digits (sym (slice-append-drop offset n k bytes hk))

pub drop-last :
    (n offset v : ℕ) (bytes : Bytes)
    → 0 < n
    → offset + n ≡ length bytes
    → IsBytes bytes
    → read_le n bytes offset ≡ ok v
    → drop offset bytes ≡ le_bytes n v
drop-last n offset v bytes pos hk h r =
    drop-field n pos offset (length bytes) v bytes hk (le_refl _) h r
    ∙ ap (λ t. le_bytes n v ++ t) (drop_all bytes)
    ∙ append-nil (le_bytes n v)

pub read_le-lt :
    (n offset v : ℕ) (bytes : Bytes)
    → 0 < n
    → offset + n ≤ length bytes
    → IsBytes bytes
    → read_le n bytes offset ≡ ok v
    → v < 256 ^ n
read_le-lt n offset v bytes pos fits h r =
    let value : le_value (slice offset n bytes) ≡ v =
      cc (read_le-slice n offset bytes fits pos h) in
    rw (← value) (
      le_value-lt (slice offset n bytes) n (IsBytes-slice offset n bytes h)
        (length-slice offset n bytes fits))

-- A row of fields, closed by its checksum.
abbrev pub seal : Bytes → Bytes
seal body = body ++ le_bytes 8 (checksum body default_seed)

-- The checksum of all that was written is the last field.
pub write_le-seal :
    (offset : ℕ) (xs : Bytes)
    → length xs ≡ offset
    → write_le 8
        (xs ++ replicate 8 0)
        offset
        (checksum (take offset (xs ++ replicate 8 0)) default_seed)
      ≡ ok (seal xs)
unfolding replicate
write_le-seal offset xs h = rw (take-append_left xs (replicate 8 0) offset h) (
    write_le-zeros 8 0 8 (checksum xs default_seed) offset xs h (omega arith) (omega arith)
    ∙ ap ok (append-nil (seal xs)))

-- The same, in front of `k` zeros that stay.
pub write_le-seal_zeros :
    (offset k m : ℕ) (xs : Bytes)
    → length xs ≡ offset
    → m ≡ 8 + k
    → write_le 8
        (xs ++ replicate m 0)
        offset
        (checksum (take offset (xs ++ replicate m 0)) default_seed)
      ≡ ok (seal xs ++ replicate k 0)
write_le-seal_zeros offset k m xs h hm =
    rw (take-append_left xs (replicate m 0) offset h)
      (write_le-zeros 8 k m (checksum xs default_seed) offset xs h hm (omega arith))

seed-lt : default_seed < 2 ^ 64
seed-lt = omega arith

le_bytes-injective : (n v w : ℕ) → v < 256 ^ n → w < 256 ^ n → le_bytes n v ≡ le_bytes n w → v ≡ w
le_bytes-injective n v w hv hw e =
    sym (le_value-le_bytes n v hv) ∙ ap le_value e ∙ le_value-le_bytes n w hw

seal-checksum :
    (x y : Bytes)
    → le_bytes 8 (checksum x default_seed) ≡ le_bytes 8 (checksum y default_seed)
    → checksum x default_seed ≡ checksum y default_seed
seal-checksum x y e =
    le_bytes-injective 8 _ _ (checksum-lt x default_seed seed-lt)
      (checksum-lt y default_seed seed-lt) e

module _ (x y front back : Bytes) (a b : ℕ) (ha : a < 256) (hb : b < 256) (hv : IsBytes back)
    (same : length x ≡ length y) (ex : front ++ (a ∷ back) ≡ seal x)
    (ey : front ++ (b ∷ back) ≡ seal y) (ne : a ≢ b) where
  in_checksum : length x ≤ length front → ⊥
  in_checksum h =
      let n = length x in
      let f = take n front in
      let g = drop n front in
      let hf : length f ≡ n = length-take_le n front h in
      let split : (c : ℕ) → front ++ (c ∷ back) ≡ f ++ (g ++ (c ∷ back)) = λ c.
        ap (λ t. t ++ (c ∷ back)) (sym (take-append-drop n front)) ∙ append_assoc f g (c ∷ back) in
      let px = sym (split a) ∙ ex in
      let py = sym (split b) ∙ ey in
      let fx = append-cancel_left f x (g ++ (a ∷ back)) _ hf px in
      let fy = append-cancel_left f y (g ++ (b ∷ back)) _ (hf ∙ same) py in
      let tx = append-cancel_right f x (g ++ (a ∷ back)) _ hf px in
      let ty = append-cancel_right f y (g ++ (b ∷ back)) _ (hf ∙ same) py in
      let tails : g ++ (a ∷ back) ≡ g ++ (b ∷ back) =
        tx ∙ ap (λ t. le_bytes 8 (checksum t default_seed)) (sym fx ∙ fy) ∙ sym ty in
      ne (cc (append-cancel_right g g (a ∷ back) (b ∷ back) refl tails))

  in_body : length front < length x → ⊥
  in_body h =
      let m = length x - length front - 1 in
      let short : m ≤ length back = omega (
        arith,
        ap length ex,
        length-append x (le_bytes 8 (checksum x default_seed)),
        length-append front (a ∷ back),
        length-le_bytes 8 (checksum x default_seed),
      ) in
      let mid = take m back in
      let end = drop m back in
      let split : (c : ℕ) → front ++ (c ∷ back) ≡ (front ++ (c ∷ mid)) ++ end = λ c.
        ap (λ t. front ++ (c ∷ t)) (sym (take-append-drop m back))
        ∙ sym (append_assoc front (c ∷ mid) end) in
      let len : (c : ℕ) → length (front ++ (c ∷ mid)) ≡ length x =
        λ c. omega (arith, length-append front (c ∷ mid), length-take_le m back short) in
      let px = sym (split a) ∙ ex in
      let py = sym (split b) ∙ ey in
      let fx = append-cancel_left (front ++ (a ∷ mid)) x end _ (len a) px in
      let fy = append-cancel_left (front ++ (b ∷ mid)) y end _ (len b ∙ same) py in
      let tx = append-cancel_right (front ++ (a ∷ mid)) x end _ (len a) px in
      let ty = append-cancel_right (front ++ (b ∷ mid)) y end _ (len b ∙ same) py in
      checksum-ne_of_one_byte front mid a b default_seed (IsBytes-take m back hv) ha hb seed-lt ne (
        ap (λ t. checksum t default_seed) fx
        ∙ seal-checksum x y (sym tx ∙ ty)
        ∙ ap (λ t. checksum t default_seed) (sym fy))

  -- Two sealed rows of one length do not differ in a single byte.
  pub seal-one_byte : ⊥
  seal-one_byte = elim (dec_lt (length front) (length x)) [
    | yes h ↦ in_body h
    | no h ↦ in_checksum (omega arith)
  ]
