-- ===== src/Core/Checksum/Laws.antt =====
-- What a checksum of src/core/Checksum.cpp tells of its bytes.
use dan_db.Prelude.{
  ℕ, ◌*◌, ◌%◌, ◌^◌, ◌<◌, bit_xor, ◌≡◌, ◌≢◌, refl, sym, ap, ◌∙◌, [], ◌∷◌, ◌++◌, arith,
}
use dan_db.Prelude.Bits.{bit_xor-bit_xor, bit_xor-lt, bit_xor_comm}
use dan_db.Core.Bytes.{Bytes, IsBytes}
use dan_db.Core.Checksum.{checksum, checksum_step, fnv_prime}

pub checksum_step-lt : (hash byte : ℕ) → checksum_step hash byte < 2 ^ 64
unfolding checksum_step
checksum_step-lt hash byte = omega arith

pub checksum-lt : (bytes : Bytes) (hash : ℕ) → hash < 2 ^ 64 → checksum bytes hash < 2 ^ 64
unfolding checksum
checksum-lt [] hash h = h
checksum-lt (b ∷ bytes) hash h = checksum-lt bytes (checksum_step hash b) (checksum_step-lt hash b)

pub checksum-append :
    (xs ys : Bytes) (hash : ℕ) → checksum (xs ++ ys) hash ≡ checksum ys (checksum xs hash)
unfolding checksum
checksum-append [] ys hash = refl
checksum-append (x ∷ xs) ys hash = checksum-append xs ys (checksum_step hash x)

-- The prime is odd, so it has an inverse modulo 2 ^ 64.
abbrev fnv_inverse : ℕ
fnv_inverse = 0xce965057aff6957b

undo_prime : (x : ℕ) → x < 2 ^ 64 → x * fnv_prime % 2 ^ 64 * fnv_inverse % 2 ^ 64 ≡ x
undo_prime x h = omega arith

module _ (g h : ℕ) (hg : g < 2 ^ 64) (hh : h < 2 ^ 64) where
  prime-injective : g * fnv_prime % 2 ^ 64 ≡ h * fnv_prime % 2 ^ 64 → g ≡ h
  prime-injective e =
      sym (undo_prime g hg) ∙ ap (λ (t : ℕ). t * fnv_inverse % 2 ^ 64) e ∙ undo_prime h hh

byte_fits : (b : ℕ) → b < 256 → b < 2 ^ 64
byte_fits b h = omega arith

-- Equal rounds over one byte start from equal hashes.
checksum_step-injective_hash :
    (g h b : ℕ) → g < 2 ^ 64 → h < 2 ^ 64 → b < 256 → checksum_step g b ≡ checksum_step h b → g ≡ h
unfolding checksum_step
checksum_step-injective_hash g h b hg hh hb e =
    let wide = byte_fits b hb in
    sym (bit_xor-bit_xor 64 g b hg wide)
    ∙ ap (λ (t : ℕ). bit_xor t b)
        (prime-injective (bit_xor g b) (bit_xor h b) (bit_xor-lt 64 g b hg wide)
          (bit_xor-lt 64 h b hh wide) e)
    ∙ bit_xor-bit_xor 64 h b hh wide

-- Equal rounds from one hash take equal bytes.
checksum_step-injective_byte :
    (h a b : ℕ) → h < 2 ^ 64 → a < 256 → b < 256 → checksum_step h a ≡ checksum_step h b → a ≡ b
unfolding checksum_step
checksum_step-injective_byte h a b hh ha hb e =
    sym (bit_xor-bit_xor 64 a h (byte_fits a ha) hh)
    ∙ ap (λ (t : ℕ). bit_xor t h)
        (bit_xor_comm a h
          ∙ prime-injective (bit_xor h a) (bit_xor h b) (bit_xor-lt 64 h a hh (byte_fits a ha))
              (bit_xor-lt 64 h b hh (byte_fits b hb)) e
          ∙ bit_xor_comm h b)
    ∙ bit_xor-bit_xor 64 b h (byte_fits b hb) hh

checksum-injective_hash :
    (bytes : Bytes) (g h : ℕ)
    → IsBytes bytes
    → g < 2 ^ 64
    → h < 2 ^ 64
    → checksum bytes g ≡ checksum bytes h
    → g ≡ h
unfolding checksum
checksum-injective_hash [] g h v hg hh e = e
checksum-injective_hash (b ∷ bytes) g h v hg hh e = checksum_step-injective_hash g h b hg hh v.0 (
    checksum-injective_hash bytes (checksum_step g b) (checksum_step h b) v.1 (checksum_step-lt g b)
      (checksum_step-lt h b) e)

-- Two byte strings that differ in exactly one byte have different checksums, from the same 64-bit
-- seed. (The bytes before the changed one may be any numbers.)
pub checksum-ne_of_one_byte :
    (front back : Bytes) (a b seed : ℕ)
    → IsBytes back
    → a < 256
    → b < 256
    → seed < 2 ^ 64
    → a ≢ b
    → checksum (front ++ (a ∷ back)) seed ≢ checksum (front ++ (b ∷ back)) seed
unfolding checksum
checksum-ne_of_one_byte front back a b seed hv ha hb hs ne e =
    let h = checksum front seed in
    let hh = checksum-lt front seed hs in
    ne (
      checksum_step-injective_byte h a b hh ha hb (
        checksum-injective_hash back (checksum_step h a) (checksum_step h b) hv
          (checksum_step-lt h a) (checksum_step-lt h b)
          (sym (checksum-append front (a ∷ back) seed)
            ∙ e
            ∙ checksum-append front (b ∷ back) seed)))
