-- ===== src/Engine/PageFormat/Trailer.antt =====
-- The page trailer: what sealing guarantees, and the damage that the check is sure to notice.
use archivum.Base.{
  ℕ, ◌+◌, ◌-◌, ◌≤◌, ◌<◌, ◌≡◌, ◌≢◌, refl, sym, ap, ◌∙◌, arith, true, false, Bytes, IsBytes, [], ◌∷◌,
  ◌++◌, length, take, length-append, take_exact, drop_exact, ==_iff, ltb, ◌==◌,
}
use mathlib.Core.List.{append-nil}
use archivum.LittleEndian.{put_u32, get_u32}
use archivum.LittleEndian.Laws.{get_u32-put_u32, length-put_u32}
use archivum.Crc32c.{crc32c}
use archivum.Crc32c.Incremental.{crc32c-lt}
use archivum.Crc32c.Detection.{crc32c_detects_burst}
use archivum.Engine.PageFormat.{seal_page, page_checksum_ok}

-- A page is its body and the four bytes of its trailer.
checksum_of_parts :
    (body trailer : Bytes)
    → 0 < length body
    → length trailer ≡ 4
    → page_checksum_ok (body ++ trailer) ≡ (get_u32 trailer == crc32c 0 body)
unfolding page_checksum_ok
checksum_of_parts body trailer h t =
    rw (size, test, body_length, drop_exact body trailer refl, take_exact body trailer refl)
  where
    size : length (body ++ trailer) ≡ length body + 4
    size = omega (arith, length-append {0} body trailer)

    test : ltb (length body + 4) 5 ≡ false
    test = ground arith

    body_length : length body + 4 - 4 ≡ length body
    body_length = omega arith

-- Sealing a page overwrites its last four bytes only, and the sealed page passes its check.
pub page_checksum_ok-seal_page :
    (body trailer : Bytes)
    → 0 < length body
    → length trailer ≡ 4
    → (page_checksum_ok (seal_page (body ++ trailer)) ≡ true)
      × (length (seal_page (body ++ trailer)) ≡ length (body ++ trailer))
      × (take (length body) (seal_page (body ++ trailer)) ≡ body)
page_checksum_ok-seal_page body trailer h t = (
  ap page_checksum_ok sealed
      ∙ checksum_of_parts body crc h (length-put_u32 _)
      ∙ (==_iff _ _).1
          (ap get_u32 (sym (append-nil crc)) ∙ get_u32-put_u32 _ [] (crc32c-lt 0 body)),
  ap length sealed
      ∙ omega (
        arith,
        length-append {0} body crc,
        length-append {0} body trailer,
        length-put_u32 (crc32c 0 body),
      ),
  ap (take (length body)) sealed ∙ take_exact body crc refl,
)
  where
    crc : Bytes
    crc = put_u32 (crc32c 0 body)

    sealed : seal_page (body ++ trailer) ≡ body ++ crc
    sealed = unfold seal_page in rw (body_length, take_exact body trailer refl)
      where
        body_length : length (body ++ trailer) - 4 ≡ length body
        body_length = omega (arith, length-append {0} body trailer)

nonempty : (xs ys : Bytes) → length xs ≡ length ys → xs ≢ ys → 0 < length xs
nonempty [] [] l differ = absurd (differ refl)
nonempty [] (y ∷ ys) l differ = absurd (omega arith)
nonempty (x ∷ xs) ys l differ = omega arith

eq_false : (a b : ℕ) → a ≢ b → (a == b) ≡ false
eq_false a b h = ground arith

-- A page that passes its check fails it after any damage within four consecutive bytes of its body.
pub page_checksum_detects_burst :
    (before xs ys after trailer : Bytes)
    → IsBytes before
    → IsBytes xs
    → IsBytes ys
    → IsBytes after
    → length trailer ≡ 4
    → length xs ≡ length ys
    → length xs ≤ 4
    → xs ≢ ys
    → page_checksum_ok ((before ++ xs ++ after) ++ trailer) ≡ true
    → page_checksum_ok ((before ++ ys ++ after) ++ trailer) ≡ false
page_checksum_detects_burst before xs ys after trailer vb vx vy va t l short differ passed =
    checksum_of_parts (before ++ ys ++ after) trailer (size ys (omega (arith, filled))) t
    ∙ eq_false _ _ (λ e. noticed (sym stored ∙ e))
  where
    filled : 0 < length xs
    filled = nonempty xs ys l differ

    size : (ms : Bytes) → 0 < length ms → 0 < length (before ++ ms ++ after)
    size ms h = omega (arith, length-append {0} (before ++ ms) after, length-append {0} before ms)

    stored : get_u32 trailer ≡ crc32c 0 (before ++ xs ++ after)
    stored =
        (==_iff _ _).0
          (sym (checksum_of_parts (before ++ xs ++ after) trailer (size xs filled) t) ∙ passed)

    noticed : crc32c 0 (before ++ xs ++ after) ≢ crc32c 0 (before ++ ys ++ after)
    noticed = crc32c_detects_burst 0 before xs ys after (omega arith) vb vx vy va l short differ
