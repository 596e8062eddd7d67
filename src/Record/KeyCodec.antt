-- ===== src/Record/KeyCodec.antt =====
-- src/record/KeyCodec.cpp: the bytes of a value as a key of a tree, which compares keys byte by byte.
-- `none` stands for the exception of a read of another payload.
pub mod Order
use dan_db.Prelude.{
  ℕ, zero, suc, ◌-◌, ◌*◌, ◌%◌, ◌^◌, bit_xor, Bool, true, false, Option, none, some, List, [], ◌∷◌,
  if◌then◌else◌, replicate,
}
use dan_db.Prelude.Sets.{contains}
use dan_db.Core.Status.{Result, ok, err, invalid_argument}
use dan_db.Core.Bytes.{Bytes, copy_bytes}
use dan_db.Core.Endian.{write_u16_be, write_u32_be, write_u64_be}
use dan_db.Record.LogicalType.{
  Kind, int8_kind, int16_kind, int32_kind, int64_kind, float64_kind, string_kind, boolean_kind,
}
use dan_db.Record.Value.{ℤ, pos, negsuc, Value, is_null, as_integer, as_string, as_boolean}

-- The cast to an unsigned word of `bits` bits.
unfoldable pub to_unsigned : ℕ → ℤ → ℕ
to_unsigned bits (pos n) = n % 2 ^ bits
to_unsigned bits (negsuc n) = 2 ^ bits - 1 - n % 2 ^ bits

-- The word of `k + 1` bits with its sign bit flipped.
unfoldable pub sortable_value : ℕ → ℤ → ℕ
unfolding to_unsigned
sortable_value k value = bit_xor (to_unsigned (suc k) value) (2 ^ k)

unfoldable pub string_key : Bytes → ℕ → Result Bytes
string_key value capacity =
    if contains 0 value
    then err invalid_argument
    else ok (copy_bytes (replicate capacity 0) 0 value)

unfoldable pub map_option {ℓ κ} : {A : Type ℓ} {B : Type κ} → (A → B) → Option A → Option B
map_option f none = none
map_option f (some a) = some (f a)

unfoldable pub sized_key : Option ℕ → Bytes → Option (Result Bytes)
unfolding string_key
sized_key none value = none
sized_key (some capacity) value = some (string_key value capacity)

unfoldable pub text_key : Option ℕ → Option Bytes → Option (Result Bytes)
unfolding sized_key
text_key capacity none = none
text_key capacity (some value) = sized_key capacity value

unfoldable pub encode_kind : Kind → Value → Option (Result Bytes)
unfolding map_option text_key
encode_kind int8_kind v = map_option (λ z. ok (sortable_value 7 z ∷ [])) (as_integer v)
encode_kind int16_kind v =
    map_option (λ z. write_u16_be (replicate 2 0) 0 (sortable_value 15 z)) (as_integer v)
encode_kind int32_kind v =
    map_option (λ z. write_u32_be (replicate 4 0) 0 (sortable_value 31 z)) (as_integer v)
encode_kind int64_kind v =
    map_option (λ z. write_u64_be (replicate 8 0) 0 (sortable_value 63 z)) (as_integer v)
encode_kind string_kind v = text_key v.type.capacity (as_string v)
encode_kind boolean_kind v = map_option (λ b. ok ((if b then 1 else 0) ∷ [])) (as_boolean v)
encode_kind float64_kind v = some (err invalid_argument)

unfoldable pub encode : Value → Option (Result Bytes)
unfolding encode_kind
encode v = if is_null v then some (err invalid_argument) else encode_kind v.type.kind v
