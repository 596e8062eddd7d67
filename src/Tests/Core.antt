-- ===== src/Tests/Core.antt =====
-- The numbers and checksums of src/core at concrete inputs.
use dan_db.Prelude.{◌+◌, set, ◌≡◌, ◌≢◌, refl, [], ◌∷◌, arith, take, drop, length}
use dan_db.Core.Status.{ok}
use dan_db.Core.Bytes.{Bytes}
use dan_db.Core.Endian.{write_le, write_le_loop, read_le}
use dan_db.Core.Endian.Laws.{read_le-write_le}
use dan_db.Core.Checksum.{checksum, default_seed}
use dan_db.Core.Checksum.Laws.{checksum-ne_of_one_byte}

abbrev six_bytes : Bytes
six_bytes = 9 ∷ 9 ∷ 9 ∷ 9 ∷ 9 ∷ 9 ∷ []

read_le-write_le_example :
    (out : Bytes) × (write_le 4 six_bytes 1 0x01020304 ≡ ok out)
    × (read_le 4 out 1 ≡ ok 0x01020304)
    × (length out ≡ length six_bytes)
    × (take 1 out ≡ take 1 six_bytes)
    × (drop (1 + 4) out ≡ drop (1 + 4) six_bytes)
read_le-write_le_example =
    read_le-write_le 4 1 0x01020304 six_bytes (omega arith) (omega arith) (omega arith)

little_endian : write_le 4 six_bytes 1 0x01020304 ≡ ok (9 ∷ 4 ∷ 3 ∷ 2 ∷ 1 ∷ 9 ∷ [])
unfolding write_le write_le_loop set
little_endian = refl

checksum-ne_of_one_byte_example :
    checksum (7 ∷ 8 ∷ []) default_seed ≢ checksum (7 ∷ 9 ∷ []) default_seed
checksum-ne_of_one_byte_example =
    checksum-ne_of_one_byte (7 ∷ []) [] 8 9 default_seed tt (omega arith) (omega arith)
      (omega arith) (λ e. absurd (omega arith))
