-- ===== src/Record/KeyCodec/Order.antt =====
-- The order of the keys that src/record/KeyCodec.cpp makes of integers.
use native.Mathlib.Nat.{pow-suc, mod-eq_of_lt}
use dan_db.Prelude.{ℕ, suc, ◌+◌, ◌-◌, ◌^◌, ◌<◌, ◌≡◌, Bool, true, false, arith, ltb, ltb→lt}
use dan_db.Prelude.Bits.{bit_xor_top, bit_xor_top_high}
use dan_db.Record.Value.{ℤ, pos, negsuc, fits_integer}
use dan_db.Record.KeyCodec.{to_unsigned, sortable_value}

-- The order of the integers.
unfoldable pub lessℤ : ℤ → ℤ → Bool
lessℤ (pos a) (pos b) = ltb a b
lessℤ (pos a) (negsuc b) = false
lessℤ (negsuc a) (pos b) = true
lessℤ (negsuc a) (negsuc b) = ltb b a

sortable_value-pos : (k n : ℕ) → n < 2 ^ k → sortable_value k (pos n) ≡ n + 2 ^ k
unfolding sortable_value to_unsigned
sortable_value-pos k n h =
    rw (mod-eq_of_lt {n = n} {m = 2 ^ suc k} (omega (arith, pow-suc 2 k))) (bit_xor_top k n h)

sortable_value-negsuc : (k n : ℕ) → n < 2 ^ k → sortable_value k (negsuc n) + suc n ≡ 2 ^ k
unfolding sortable_value to_unsigned
sortable_value-negsuc k n h =
    let e : 2 ^ suc k - 1 - n ≡ (2 ^ k - suc n) + 2 ^ k = omega (arith, pow-suc 2 k, h) in
    rw
      (
        mod-eq_of_lt {n = n} {m = 2 ^ suc k} (omega (arith, pow-suc 2 k)),
        e,
        bit_xor_top_high k (2 ^ k - suc n) (omega (arith, h)),
      )
      (omega (arith, h))

-- Of two integers that fit a signed word, the words of their keys, without a sign, are in the order
-- of the integers.
pub sortable_value-lessℤ :
    (k : ℕ) (a b : ℤ)
    → fits_integer k a ≡ true
    → fits_integer k b ≡ true
    → ltb (sortable_value k a) (sortable_value k b) ≡ lessℤ a b
unfolding lessℤ fits_integer
sortable_value-lessℤ k (pos a) (pos b) ha hb = ground (
  arith,
  sortable_value-pos k a (ltb→lt a (2 ^ k) ha),
  sortable_value-pos k b (ltb→lt b (2 ^ k) hb),
)
sortable_value-lessℤ k (pos a) (negsuc b) ha hb = ground (
  arith,
  sortable_value-pos k a (ltb→lt a (2 ^ k) ha),
  sortable_value-negsuc k b (ltb→lt b (2 ^ k) hb),
)
sortable_value-lessℤ k (negsuc a) (pos b) ha hb = ground (
  arith,
  sortable_value-negsuc k a (ltb→lt a (2 ^ k) ha),
  sortable_value-pos k b (ltb→lt b (2 ^ k) hb),
)
sortable_value-lessℤ k (negsuc a) (negsuc b) ha hb = ground (
  arith,
  sortable_value-negsuc k a (ltb→lt a (2 ^ k) ha),
  sortable_value-negsuc k b (ltb→lt b (2 ^ k) hb),
)
