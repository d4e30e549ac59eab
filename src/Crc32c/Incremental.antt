-- ===== src/Crc32c/Incremental.antt =====
-- A checksum continued over more bytes is the checksum of the whole.
use archivum.Base.{ℕ, ◌^◌, ◌<◌, ◌≡◌, refl, sym, ap, ◌∙◌, arith, Bytes, IsBytes, [], ◌∷◌, ◌++◌}
use archivum.Crc32c.{complement, update, update_all, crc32c}
use archivum.Crc32c.Rounds.{update_all-lt}

pub update_all-append :
    (c : ℕ) (xs ys : Bytes) → update_all c (xs ++ ys) ≡ update_all (update_all c xs) ys
unfolding update_all
update_all-append c [] ys = refl
update_all-append c (x ∷ xs) ys = update_all-append (update c x) xs ys

-- The checksum is a 32-bit word, whatever the checksum that it continues.
pub crc32c-lt : (crc : ℕ) (bs : Bytes) → crc32c crc bs < 2 ^ 32
unfolding crc32c
crc32c-lt crc bs = omega arith

-- Checksumming `xs` and then continuing over `ys`, as the journal and the log do with a header and a
-- payload, gives the checksum of `xs ++ ys`.
pub crc32c-append :
    (crc : ℕ) (xs ys : Bytes)
    → crc < 2 ^ 32
    → IsBytes xs
    → crc32c (crc32c crc xs) ys ≡ crc32c crc (xs ++ ys)
unfolding crc32c
crc32c-append crc xs ys h v =
    ap (λ c. complement (update_all c ys)) back
    ∙ ap complement (sym (update_all-append (complement crc) xs ys))
  where
    back : complement (complement (update_all (complement crc) xs)) ≡ update_all (complement crc) xs
    back = omega (arith, update_all-lt (complement crc) xs (omega arith) v)
