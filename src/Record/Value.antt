-- ===== src/Record/Value.antt =====
-- src/record/Value.cpp and include/dandb/record/Value.h. A double is its 64 bits, and a string the
-- list of its bytes. `none` stands for the exception of a read of another payload.
use dan_db.Prelude.{ℕ, ◌^◌, Bool, true, false, not, Option, none, some, ltb, if◌then◌else◌, length}
use dan_db.Core.Status.{Result, ok, err, invalid_argument, ◌>>=◌}
use dan_db.Core.Bytes.{Bytes}
use dan_db.Record.LogicalType.{LogicalType}
use dan_db.Record.LogicalType

-- `negsuc n` is -(n + 1).
pub data ℤ : Type 0 where
  pos negsuc : ℕ → ℤ

pub data Payload : Type 0 where
  monostate : Payload
  integer : ℤ → Payload
  double : ℕ → Payload
  text : Bytes → Payload
  truth : Bool → Payload

pub record Value : Type 0 where
  pub type : LogicalType
  pub payload : Payload

-- Between the smallest and the largest signed number of `k + 1` bits.
unfoldable pub fits_integer : ℕ → ℤ → Bool
fits_integer k (pos n) = ltb n (2 ^ k)
fits_integer k (negsuc n) = ltb n (2 ^ k)

unfoldable pub int8 : ℤ → Result Value
int8 value =
    if not (fits_integer 7 value)
    then err invalid_argument
    else ok (record { type = LogicalType.int8; payload = integer value })

unfoldable pub int16 : ℤ → Result Value
int16 value =
    if not (fits_integer 15 value)
    then err invalid_argument
    else ok (record { type = LogicalType.int16; payload = integer value })

unfoldable pub int32 : ℤ → Result Value
int32 value =
    if not (fits_integer 31 value)
    then err invalid_argument
    else ok (record { type = LogicalType.int32; payload = integer value })

unfoldable pub int64 : ℤ → Value
int64 value = record { type = LogicalType.int64; payload = integer value }

unfoldable pub float64 : ℕ → Value
float64 value = record { type = LogicalType.float64; payload = double value }

unfoldable pub string : Bytes → ℕ → Result Value
unfolding LogicalType.string
string value capacity = LogicalType.string capacity >>= λ type.
    if ltb capacity (length value)
    then err invalid_argument
    else ok (record { type = type; payload = text value })

unfoldable pub boolean : Bool → Value
boolean value = record { type = LogicalType.boolean; payload = truth value }

unfoldable pub null : LogicalType → Value
null type = record { type = type; payload = monostate }

unfoldable pub is_null : Value → Bool
is_null v = elim v.payload [ monostate ↦ true | _ ↦ false ]

unfoldable pub as_integer : Value → Option ℤ
as_integer v = elim v.payload [ integer value ↦ some value | _ ↦ none ]

unfoldable pub as_float64 : Value → Option ℕ
as_float64 v = elim v.payload [ double value ↦ some value | _ ↦ none ]

unfoldable pub as_string : Value → Option Bytes
as_string v = elim v.payload [ text value ↦ some value | _ ↦ none ]

unfoldable pub as_boolean : Value → Option Bool
as_boolean v = elim v.payload [ truth value ↦ some value | _ ↦ none ]
