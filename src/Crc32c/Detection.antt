-- ===== src/Crc32c/Detection.antt =====
-- What a checksum is sure to notice: any damage within four consecutive bytes.
use archivum.Base.{
  ℕ, zero, suc, ◌+◌, ◌*◌, ◌^◌, ◌≤◌, ◌<◌, ◌≡◌, ◌≢◌, sym, ap, ◌∙◌, arith, Bytes, IsBytes, [], ◌∷◌,
  ◌++◌, length, bit_xor,
}
use archivum.Base.Bits.{xor_assoc, xor_comm, xor-lt, xor_disjoint, xor_left_injective, xor-zero}
use mathlib.Core.List.{append_assoc}
use native.Mathlib.Nat.{zero-add, suc-add}
use archivum.LittleEndian.Laws.{get, get-lt, get_injective}
use archivum.Crc32c.{complement, round, rounds, update, update_all, crc32c}
use archivum.Crc32c.Rounds.{
  rounds-xor, rounds_shift, rounds_injective, update-eq-rounds, update-lt, update_all-lt,
}
use archivum.Crc32c.Incremental.{update_all-append}

recount : (c : ℕ) {m n : ℕ} → m ≡ n → rounds m c ≡ rounds n c
recount c e = ap (λ t. rounds t c) e

rounds-add : (m n c : ℕ) → rounds (m + n) c ≡ rounds n (rounds m c)
unfolding rounds
rounds-add zero n c = recount c (zero-add n)
rounds-add (suc m) n c = recount c (suc-add m n) ∙ rounds-add m n (round c)

-- A whole run of bytes at once: eight rounds for each, of the number that the bytes spell.
update_all-eq-rounds :
    (c : ℕ) (bs : Bytes)
    → IsBytes bs
    → update_all c bs ≡ rounds (8 * length bs) (bit_xor c (get bs))
unfolding update_all
update_all-eq-rounds c [] v = unfold rounds in sym (xor-zero c)
update_all-eq-rounds c (b ∷ bs) v =
    update_all-eq-rounds (update c b) bs v.1
    ∙ ap (rounds (8 * length bs)) joined
    ∙ sym (recount whole next ∙ rounds-add 8 (8 * length bs) whole)
  where
    whole : ℕ
    whole = bit_xor c (b + 256 * get bs)

    next : 8 * suc (length bs) ≡ 8 + 8 * length bs
    next = omega arith

    joined : bit_xor (update c b) (get bs) ≡ rounds 8 whole
    joined =
        ap (λ t. bit_xor t (get bs)) (update-eq-rounds c b v.0)
        ∙ ap (bit_xor (rounds 8 (bit_xor c b))) (sym (rounds_shift 8 (get bs)))
        ∙ sym (rounds-xor 8 (bit_xor c b) (256 * get bs))
        ∙ ap (rounds 8)
            (xor_assoc c b (256 * get bs) ∙ ap (bit_xor c) (xor_disjoint 8 b (get bs) v.0))

update_all_injective :
    (c d : ℕ) (bs : Bytes)
    → c < 2 ^ 32
    → d < 2 ^ 32
    → IsBytes bs
    → update_all c bs ≡ update_all d bs
    → c ≡ d
unfolding update_all
update_all_injective c d [] p q v h = h
update_all_injective c d (b ∷ bs) p q v h = before_byte (
    update_all_injective (update c b) (update d b) bs (update-lt c b p v.0) (update-lt d b q v.0)
      v.1 h)
  where
    before_byte : update c b ≡ update d b → c ≡ d
    before_byte e = xor_left_injective b c d (
        xor_comm b c
        ∙ rounds_injective 8 (bit_xor c b) (bit_xor d b) (xor-lt 32 c b p (omega arith))
            (xor-lt 32 d b q (omega arith))
            (sym (update-eq-rounds c b v.0) ∙ e ∙ update-eq-rounds d b v.0)
        ∙ xor_comm d b)

-- Four bytes fit the register, so that nothing of them is lost.
window_injective :
    (c : ℕ) (xs ys : Bytes)
    → c < 2 ^ 32
    → IsBytes xs
    → IsBytes ys
    → length xs ≡ length ys
    → length xs ≤ 4
    → update_all c xs ≡ update_all c ys
    → xs ≡ ys
window_injective c xs ys h vx vy l short same = get_injective xs ys vx vy l (
    xor_left_injective c (get xs) (get ys) (
      rounds_injective (8 * length xs) (bit_xor c (get xs)) (bit_xor c (get ys))
        (xor-lt 32 c (get xs) h (get-lt 4 xs vx short))
        (xor-lt 32 c (get ys) h (get-lt 4 ys vy (omega arith)))
        (sym (update_all-eq-rounds c xs vx)
          ∙ same
          ∙ update_all-eq-rounds c ys vy
          ∙ recount (bit_xor c (get ys)) (ap (λ t. 8 * t) (sym l)))))

-- Two byte sequences that agree outside a window of at most four bytes, and differ inside it, have
-- different checksums, whatever 32-bit checksum is continued.
pub crc32c_detects_burst :
    (crc : ℕ) (before xs ys after : Bytes)
    → crc < 2 ^ 32
    → IsBytes before
    → IsBytes xs
    → IsBytes ys
    → IsBytes after
    → length xs ≡ length ys
    → length xs ≤ 4
    → xs ≢ ys
    → crc32c crc (before ++ xs ++ after) ≢ crc32c crc (before ++ ys ++ after)
unfolding crc32c
crc32c_detects_burst crc before xs ys after h vb vx vy va l short differ same =
    differ (window_injective start xs ys start-lt vx vy l short window)
  where
    start : ℕ
    start = update_all (complement crc) before

    start-lt : start < 2 ^ 32
    start-lt = update_all-lt (complement crc) before (omega arith) vb

    parts :
        (ms : Bytes)
        → update_all (complement crc) (before ++ ms ++ after)
          ≡ update_all (update_all start ms) after
    parts ms =
        ap (update_all (complement crc)) (append_assoc before ms after)
        ∙ update_all-append (complement crc) before (ms ++ after)
        ∙ update_all-append start ms after

    bound : (ms : Bytes) → IsBytes ms → update_all (complement crc) (before ++ ms ++ after) < 2 ^ 32
    bound ms v = rw parts (update_all-lt _ after (update_all-lt start ms start-lt v) va)

    window : update_all start xs ≡ update_all start ys
    window =
        update_all_injective (update_all start xs) (update_all start ys) after
          (update_all-lt start xs start-lt vx) (update_all-lt start ys start-lt vy) va
          (sym (parts xs) ∙ omega (arith, same, bound xs vx, bound ys vy) ∙ parts ys)
