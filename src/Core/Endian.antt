-- ===== src/Core/Endian.antt =====
-- src/core/Endian.cpp. `n` is the width in bytes; the functions of one width are the last ones.
-- `value >> 8*i` is `value / 2 ^ (8 * i)`. A byte that is shifted by less than the width does not
-- leave the word, so no wrap-around is written in `read_le`.
pub mod Laws
pub mod Fields
use dan_db.Prelude.{
  ℕ, zero, suc, ◌+◌, ◌-◌, ◌*◌, ◌/◌, ◌^◌, bit_and, bit_or, ◌||◌, ltb, leb, if◌then◌else◌, length,
  set, get_or,
}
use dan_db.Core.Status.{Result, ok, err, invalid_argument}
use dan_db.Core.Bytes.{Bytes}

-- `n` rounds are left and `i` are done.
unfoldable pub write_le_loop : ℕ → ℕ → Bytes → ℕ → ℕ → Bytes
write_le_loop zero i buffer offset value = buffer
write_le_loop (suc n) i buffer offset value =
    write_le_loop n (suc i) (set buffer (offset + i) (bit_and (value / 2 ^ (8 * i)) 0xff)) offset
      value

unfoldable pub write_le : ℕ → Bytes → ℕ → ℕ → Result Bytes
write_le n buffer offset value =
    if leb (length buffer) offset || ltb (length buffer - offset) n
    then err invalid_argument
    else ok (write_le_loop n 0 buffer offset value)

-- `8*(n-1-i)` is eight times the rounds that are left after this one.
unfoldable pub write_be_loop : ℕ → ℕ → Bytes → ℕ → ℕ → Bytes
write_be_loop zero i buffer offset value = buffer
write_be_loop (suc n) i buffer offset value =
    write_be_loop n (suc i) (set buffer (offset + i) (bit_and (value / 2 ^ (8 * n)) 0xff)) offset
      value

unfoldable pub write_be : ℕ → Bytes → ℕ → ℕ → Result Bytes
write_be n buffer offset value =
    if leb (length buffer) offset || ltb (length buffer - offset) n
    then err invalid_argument
    else ok (write_be_loop n 0 buffer offset value)

unfoldable pub read_le_loop : ℕ → ℕ → Bytes → ℕ → ℕ → ℕ
read_le_loop zero i buffer offset res = res
read_le_loop (suc n) i buffer offset res =
    read_le_loop n (suc i) buffer offset (bit_or res (get_or buffer (offset + i) 0 * 2 ^ (8 * i)))

unfoldable pub read_le : ℕ → Bytes → ℕ → Result ℕ
read_le n buffer offset =
    if leb (length buffer) offset || ltb (length buffer - offset) n
    then err invalid_argument
    else ok (read_le_loop n 0 buffer offset 0)

abbrev pub write_u16_le : Bytes → ℕ → ℕ → Result Bytes
write_u16_le = write_le 2

abbrev pub write_u16_be : Bytes → ℕ → ℕ → Result Bytes
write_u16_be = write_be 2

abbrev pub read_u16_le : Bytes → ℕ → Result ℕ
read_u16_le = read_le 2

abbrev pub write_u32_le : Bytes → ℕ → ℕ → Result Bytes
write_u32_le = write_le 4

abbrev pub write_u32_be : Bytes → ℕ → ℕ → Result Bytes
write_u32_be = write_be 4

abbrev pub read_u32_le : Bytes → ℕ → Result ℕ
read_u32_le = read_le 4

abbrev pub write_u64_le : Bytes → ℕ → ℕ → Result Bytes
write_u64_le = write_le 8

abbrev pub write_u64_be : Bytes → ℕ → ℕ → Result Bytes
write_u64_be = write_be 8

abbrev pub read_u64_le : Bytes → ℕ → Result ℕ
read_u64_le = read_le 8
