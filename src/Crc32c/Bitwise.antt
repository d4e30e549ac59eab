-- ===== src/Crc32c/Bitwise.antt =====
-- The table-driven loop against the shift register that defines CRC-32C, one bit at a time.
use archivum.Base.{ℕ, ◌≡◌, refl, ap, ◌∙◌, Bytes, IsBytes, [], ◌∷◌, bit_xor}
use archivum.Crc32c.{complement, rounds, update_all, crc32c}
use archivum.Crc32c.Rounds.{update-eq-rounds}

-- Each byte is added to the register's low end, and eight bits are shifted out.
abbrev pub shift_register : ℕ → Bytes → ℕ
shift_register c [] = c
shift_register c (b ∷ bs) = shift_register (rounds 8 (bit_xor c b)) bs

abbrev pub bitwise_crc32c : ℕ → Bytes → ℕ
bitwise_crc32c crc bs = complement (shift_register (complement crc) bs)

update_all-eq : (c : ℕ) (bs : Bytes) → IsBytes bs → update_all c bs ≡ shift_register c bs
unfolding update_all
update_all-eq c [] v = refl
update_all-eq c (b ∷ bs) v =
    ap (λ t. update_all t bs) (update-eq-rounds c b v.0)
    ∙ update_all-eq (rounds 8 (bit_xor c b)) bs v.1

-- On any bytes the table-driven checksum is the one of the bitwise shift register.
pub crc32c-eq-bitwise : (crc : ℕ) (bs : Bytes) → IsBytes bs → crc32c crc bs ≡ bitwise_crc32c crc bs
unfolding crc32c
crc32c-eq-bitwise crc bs v = ap complement (update_all-eq (complement crc) bs v)
