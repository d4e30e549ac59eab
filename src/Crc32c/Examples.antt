-- ===== src/Crc32c/Examples.antt =====
-- Runs of the checksum, and its theorems at concrete bytes.
use archivum.Base.{◌≡◌, ◌≢◌, refl, arith, [], ◌∷◌, Bytes}
use archivum.Crc32c.{entry, table, update, round, rounds, crc32c}
use archivum.Crc32c.Bitwise.{bitwise_crc32c, crc32c-eq-bitwise}
use archivum.Crc32c.Detection.{crc32c_detects_burst}

abbrev check_string : Bytes
check_string = 0x31 ∷ 0x32 ∷ 0x33 ∷ 0x34 ∷ 0x35 ∷ 0x36 ∷ 0x37 ∷ 0x38 ∷ 0x39 ∷ []

-- The check value that docs and the unit test quote for "123456789".
check_value : crc32c 0 check_string ≡ 0xE3069283
unfolding crc32c update entry table rounds round
check_value = refl

crc32c-eq-bitwise_example : crc32c 0 check_string ≡ bitwise_crc32c 0 check_string
crc32c-eq-bitwise_example = crc32c-eq-bitwise 0 check_string (omega arith)

crc32c_detects_burst_example : crc32c 0 (7 ∷ 1 ∷ 2 ∷ 9 ∷ []) ≢ crc32c 0 (7 ∷ 1 ∷ 3 ∷ 9 ∷ [])
crc32c_detects_burst_example =
    crc32c_detects_burst 0 (7 ∷ []) (1 ∷ 2 ∷ []) (1 ∷ 3 ∷ []) (9 ∷ []) (omega arith) (omega arith)
      (omega arith) (omega arith) (omega arith) refl (omega arith) (λ e. cc)
