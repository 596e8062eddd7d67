-- ===== src/Core/Checksum.antt =====
-- src/core/Checksum.cpp: the FNV-1a hash of 64 bits. A `uint64_t` product is taken modulo 2 ^ 64.
pub mod Laws
use dan_db.Prelude.{ℕ, ◌*◌, ◌%◌, ◌^◌, bit_xor, [], ◌∷◌}
use dan_db.Core.Bytes.{Bytes}

abbrev pub fnv_prime : ℕ
fnv_prime = 0x100000001b3

abbrev pub default_seed : ℕ
default_seed = 0xcbf29ce484222325

-- One round of the loop.
unfoldable pub checksum_step : ℕ → ℕ → ℕ
checksum_step hash byte = bit_xor hash byte * fnv_prime % 2 ^ 64

unfoldable pub checksum : Bytes → ℕ → ℕ
checksum [] hash = hash
checksum (byte ∷ bytes) hash = checksum bytes (checksum_step hash byte)
