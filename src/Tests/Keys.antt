-- ===== src/Tests/Keys.antt =====
-- Keys of src/record/KeyCodec.cpp at concrete values.
use dan_db.Prelude.{◌≡◌, refl, ltb}
use dan_db.Record.Value.{pos, negsuc, fits_integer}
use dan_db.Record.KeyCodec.{sortable_value}
use dan_db.Record.KeyCodec.Order.{lessℤ, sortable_value-lessℤ}

sortable_value-lessℤ_example :
    ltb (sortable_value 7 (negsuc 4)) (sortable_value 7 (pos 3)) ≡ lessℤ (negsuc 4) (pos 3)
unfolding fits_integer
sortable_value-lessℤ_example = sortable_value-lessℤ 7 (negsuc 4) (pos 3) refl refl
