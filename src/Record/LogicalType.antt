-- ===== src/Record/LogicalType.antt =====
-- src/record/LogicalType.cpp and include/dandb/record/LogicalType.h. The name that is displayed for a
-- type is not modelled. `none` stands for the exception that an absent capacity throws.
use dan_db.Prelude.{ℕ, Bool, true, false, Option, none, some, ◌==◌, if◌then◌else◌}
use dan_db.Core.Status.{Result, ok, err, invalid_argument}

pub data Kind : Type 0 where
  int8_kind int16_kind int32_kind int64_kind float64_kind string_kind boolean_kind : Kind

pub record LogicalType : Type 0 where
  pub kind : Kind
  pub capacity : Option ℕ

abbrev pub int8 : LogicalType
int8 = record { kind = int8_kind; capacity = none }

abbrev pub int16 : LogicalType
int16 = record { kind = int16_kind; capacity = none }

abbrev pub int32 : LogicalType
int32 = record { kind = int32_kind; capacity = none }

abbrev pub int64 : LogicalType
int64 = record { kind = int64_kind; capacity = none }

abbrev pub float64 : LogicalType
float64 = record { kind = float64_kind; capacity = none }

abbrev pub boolean : LogicalType
boolean = record { kind = boolean_kind; capacity = none }

unfoldable pub string : ℕ → Result LogicalType
string capacity =
    if capacity == 0
    then err invalid_argument
    else ok (record { kind = string_kind; capacity = some capacity })

unfoldable pub kind_size : Kind → Option ℕ → Option ℕ
kind_size int8_kind capacity = some 1
kind_size int16_kind capacity = some 2
kind_size int32_kind capacity = some 4
kind_size int64_kind capacity = some 8
kind_size float64_kind capacity = some 8
kind_size string_kind capacity = capacity
kind_size boolean_kind capacity = some 1

unfoldable pub fixed_size : LogicalType → Option ℕ
unfolding kind_size
fixed_size type = kind_size type.kind type.capacity

unfoldable pub kind_can_be_indexed : Kind → Bool
kind_can_be_indexed float64_kind = false
kind_can_be_indexed int8_kind = true
kind_can_be_indexed int16_kind = true
kind_can_be_indexed int32_kind = true
kind_can_be_indexed int64_kind = true
kind_can_be_indexed string_kind = true
kind_can_be_indexed boolean_kind = true

unfoldable pub can_be_indexed : LogicalType → Bool
unfolding kind_can_be_indexed
can_be_indexed type = kind_can_be_indexed type.kind
