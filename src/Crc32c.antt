-- ===== src/Crc32c.antt =====
-- engine/src/crc32c.cpp: the table-driven CRC-32C. Words are numbers below 2^32.
pub mod Rounds
pub mod Incremental
pub mod Bitwise
pub mod Detection
mod Examples
use archivum.Base.{
  ℕ, zero, suc, ◌+◌, ◌-◌, ◌/◌, ◌%◌, ◌^◌, List, [], ◌∷◌, ◌==◌, if◌then◌else◌, bit_xor, Bytes,
}

abbrev pub polynomial : ℕ
polynomial = 0x82F63B78

-- One round of the inner loop of `make_table`.
unfoldable pub round : ℕ → ℕ
round c = if c % 2 == 1 then bit_xor polynomial (c / 2) else c / 2

unfoldable pub rounds : ℕ → ℕ → ℕ
rounds zero c = c
rounds (suc k) c = rounds k (round c)

-- The entries from `i` on, `n` of them.
unfoldable pub make_table : ℕ → ℕ → List ℕ
make_table zero i = []
make_table (suc n) i = rounds 8 i ∷ make_table n (i + 1)

unfoldable pub table : List ℕ
unfolding make_table
table = make_table 256 0

unfoldable pub entry : List ℕ → ℕ → ℕ
entry [] i = 0
entry (x ∷ xs) zero = x
entry (x ∷ xs) (suc i) = entry xs i

-- `~c` on 32 bits.
abbrev pub complement : ℕ → ℕ
complement c = 2 ^ 32 - 1 - c

-- The body of the loop over the data.
unfoldable pub update : ℕ → ℕ → ℕ
update c b = bit_xor (entry table (bit_xor c b % 256)) (c / 256)

unfoldable pub update_all : ℕ → Bytes → ℕ
update_all c [] = c
update_all c (b ∷ bs) = update_all (update c b) bs

unfoldable pub crc32c : ℕ → Bytes → ℕ
unfolding update_all
crc32c crc bytes = complement (update_all (complement crc) bytes)
