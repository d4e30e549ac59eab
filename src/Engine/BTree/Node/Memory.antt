-- ===== src/Engine/BTree/Node/Memory.antt =====
-- Reading from a page that was written to.
use archivum.Base.{
  ℕ, zero, suc, ◌+◌, ◌-◌, ◌^◌, ◌<◌, ◌≤◌, ◌≡◌, refl, sym, ap, ◌∙◌, arith, [], ◌∷◌, ◌++◌, Bytes,
  length, take, drop, length-append, length-take, length-drop, drop_add, drop_exact, drop-append,
}
use archivum.LittleEndian.{put_from, get_from}
use archivum.LittleEndian.Laws.{read_back}
use archivum.Engine.BTree.Node.{put_u16, get_u16, get_u8, poke, peek}

-- What is read within the first `m` bytes does not depend on the rest.
pub peek-take : (a n m : ℕ) (p : Bytes) → a + n ≤ m → peek a n (take m p) ≡ peek a n p
peek-take a zero m p h = refl
peek-take zero (suc n) zero p h = absurd (omega arith)
peek-take zero (suc n) (suc m) [] h = refl
peek-take zero (suc n) (suc m) (x ∷ p) h = ap (λ xs. x ∷ xs) (peek-take 0 n m p (omega arith))
peek-take (suc a) (suc n) zero p h = absurd (omega arith)
peek-take (suc a) (suc n) (suc m) [] h = refl
peek-take (suc a) (suc n) (suc m) (x ∷ p) h = peek-take a (suc n) m p (omega arith)

pub peek-append :
    (a n : ℕ) (bs rest : Bytes) → a + n ≤ length bs → peek a n (bs ++ rest) ≡ peek a n bs
peek-append a zero bs rest h = refl
peek-append zero (suc n) [] rest h = absurd (omega arith)
peek-append zero (suc n) (b ∷ bs) rest h = ap (λ xs. b ∷ xs) (peek-append 0 n bs rest (omega arith))
peek-append (suc a) (suc n) [] rest h = absurd (omega arith)
peek-append (suc a) (suc n) (b ∷ bs) rest h = peek-append a (suc n) bs rest (omega arith)

pub length-peek : (a n : ℕ) (p : Bytes) → a + n ≤ length p → length (peek a n p) ≡ n
length-peek a n p h = ground (arith, length-take {0} n (drop a p), length-drop {0} a p)

module _ (off : ℕ) (bs p : Bytes) (within : off + length bs ≤ length p) where
  length-front : length (take off p) ≡ off
  length-front = ground (arith, length-take {0} off p)

  pub length-poke : length (poke off bs p) ≡ length p
  unfolding poke
  length-poke = omega (
    arith,
    length-front,
    length-append {0} (take off p) (bs ++ drop (off + length bs) p),
    length-append {0} bs (drop (off + length bs) p),
    length-drop {0} (off + length bs) p,
  )

  pub drop-poke : drop off (poke off bs p) ≡ bs ++ drop (off + length bs) p
  unfolding poke
  drop-poke = drop_exact (take off p) (bs ++ drop (off + length bs) p) length-front

  -- In front of the bytes that were written.
  pub peek-poke_before : (a n : ℕ) → a + n ≤ off → peek a n (poke off bs p) ≡ peek a n p
  unfolding poke
  peek-poke_before a n h =
      peek-append a n (take off p) (bs ++ drop (off + length bs) p) (omega (arith, length-front))
      ∙ peek-take a n off p h

  -- Behind them.
  pub drop-poke_behind : (a : ℕ) → off + length bs ≤ a → drop a (poke off bs p) ≡ drop a p
  drop-poke_behind a h =
      ap (λ n. drop n (poke off bs p)) place
      ∙ drop_add off (length bs + left) (poke off bs p)
      ∙ ap (drop (length bs + left)) drop-poke
      ∙ drop_add (length bs) left (bs ++ drop (off + length bs) p)
      ∙ ap (drop left) (drop-append bs (drop (off + length bs) p))
      ∙ sym (drop_add (off + length bs) left p)
      ∙ ap (λ n. drop n p) back
    where
      left : ℕ
      left = a - (off + length bs)

      place : a ≡ off + (length bs + left)
      place = omega arith

      back : off + length bs + left ≡ a
      back = omega arith

  -- Among them.
  pub peek-poke_inside :
      (j n : ℕ) → j + n ≤ length bs → peek (off + j) n (poke off bs p) ≡ peek j n bs
  peek-poke_inside j n h =
      ap (take n) (drop_add off j (poke off bs p) ∙ ap (drop j) drop-poke)
      ∙ peek-append j n bs (drop (off + length bs) p) h

pub get_u16-put_u16 : (v : ℕ) (rest : Bytes) → v < 2 ^ 16 → get_u16 (put_u16 v ++ rest) ≡ v
unfolding get_u16 put_u16
get_u16-put_u16 v rest h = read_back 2 v rest h

pub length-put_u16 : (v : ℕ) → length (put_u16 v) ≡ 2
unfolding put_u16 put_from
length-put_u16 v = refl

-- A 16-bit word of the page.
module _ (off : ℕ) (bs p : Bytes) (within : off + length bs ≤ length p) where
  pub get_u16-poke_before :
      (a : ℕ) → a + 2 ≤ off → get_u16 (drop a (poke off bs p)) ≡ get_u16 (drop a p)
  unfolding get_u16
  get_u16-poke_before a h = ap (get_from 0) (peek-poke_before off bs p within a 2 h)

  pub get_u16-poke_behind :
      (a : ℕ) → off + length bs ≤ a → get_u16 (drop a (poke off bs p)) ≡ get_u16 (drop a p)
  get_u16-poke_behind a h = ap get_u16 (drop-poke_behind off bs p within a h)

  pub get_u16-poke_inside :
      (j : ℕ) → j + 2 ≤ length bs → get_u16 (drop (off + j) (poke off bs p)) ≡ get_u16 (drop j bs)
  unfolding get_u16
  get_u16-poke_inside j h = ap (get_from 0) (peek-poke_inside off bs p within j 2 h)

module _ (off v : ℕ) (p : Bytes) (within : off + 2 ≤ length p) where
  word_within : off + length (put_u16 v) ≤ length p
  word_within = omega (arith, length-put_u16 v)

  pub length-poke_word : length (poke off (put_u16 v) p) ≡ length p
  length-poke_word = length-poke off (put_u16 v) p word_within

  pub word_back : v < 2 ^ 16 → get_u16 (drop off (poke off (put_u16 v) p)) ≡ v
  word_back h = ap get_u16 (drop-poke off (put_u16 v) p word_within) ∙ get_u16-put_u16 v _ h

  pub word_before :
      (a : ℕ) → a + 2 ≤ off → get_u16 (drop a (poke off (put_u16 v) p)) ≡ get_u16 (drop a p)
  word_before a h = get_u16-poke_before off (put_u16 v) p word_within a h

  pub word_behind :
      (a : ℕ) → off + 2 ≤ a → get_u16 (drop a (poke off (put_u16 v) p)) ≡ get_u16 (drop a p)
  word_behind a h =
      get_u16-poke_behind off (put_u16 v) p word_within a (omega (arith, length-put_u16 v))

  pub drop-poke_word : (a : ℕ) → off + 2 ≤ a → drop a (poke off (put_u16 v) p) ≡ drop a p
  drop-poke_word a h =
      drop-poke_behind off (put_u16 v) p word_within a (omega (arith, length-put_u16 v))

  pub byte_before :
      (a : ℕ) → a + 1 ≤ off → get_u8 (drop a (poke off (put_u16 v) p)) ≡ get_u8 (drop a p)
  unfolding get_u8
  byte_before a h = ap (get_from 0) (peek-poke_before off (put_u16 v) p word_within a 1 h)

-- A word of bytes that were copied.
pub get_u16-peek :
    (a m x : ℕ) (p : Bytes) → x + 2 ≤ m → get_u16 (drop x (peek a m p)) ≡ get_u16 (drop (a + x) p)
unfolding get_u16
get_u16-peek a m x p h =
    ap (get_from 0) (peek-take x 2 m (drop a p) h ∙ ap (take 2) (sym (drop_add a x p)))

-- The first byte of the page.
pub first_byte :
    (off : ℕ) (bs p : Bytes)
    → off + length bs ≤ length p
    → 1 ≤ off
    → get_u8 (poke off bs p) ≡ get_u8 p
unfolding get_u8
first_byte off bs p within h = ap (get_from 0) (peek-poke_before off bs p within 0 1 h)
