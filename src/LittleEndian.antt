-- ===== src/LittleEndian.antt =====
-- The little-endian integers of engine/src/engine/page_format.cpp (`put_u32`, `put_u64`, `get_u32`,
-- `get_u64`), which engine/src/journal.cpp repeats as `put_u32_le` and `get_u32_le`.
-- A pointer into a buffer is the rest of the buffer from there. The bytes that a get joins by `|` have
-- no binary digit in common, so they are added.
pub mod Laws
use archivum.Base.{ℕ, zero, suc, ◌+◌, ◌*◌, ◌/◌, ◌%◌, ◌^◌, [], ◌∷◌, Bytes, take}

-- The loop `out[i] = (v >> (8 * i)) & 0xFF` from `i` on, for `n` rounds.
unfoldable pub put_from : ℕ → ℕ → ℕ → Bytes
put_from zero i v = []
put_from (suc n) i v = (v / 2 ^ (8 * i) % 256) ∷ put_from n (i + 1) v

unfoldable pub put_u32 : ℕ → Bytes
unfolding put_from
put_u32 v = put_from 4 0 v

unfoldable pub put_u64 : ℕ → Bytes
unfolding put_from
put_u64 v = put_from 8 0 v

-- The loop `v |= in[i] << (8 * i)` from `i` on, over the bytes given.
unfoldable pub get_from : ℕ → Bytes → ℕ
get_from i [] = 0
get_from i (b ∷ bs) = b * 2 ^ (8 * i) + get_from (i + 1) bs

unfoldable pub get_u32 : Bytes → ℕ
unfolding get_from
get_u32 bs = get_from 0 (take 4 bs)

unfoldable pub get_u64 : Bytes → ℕ
unfolding get_from
get_u64 bs = get_from 0 (take 8 bs)
