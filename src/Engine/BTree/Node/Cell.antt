-- ===== src/Engine/BTree/Node/Cell.antt =====
-- `build_leaf_cell` and `build_interior_cell` of engine/src/engine/btree.cpp, and what a node reads of their cells.
use archivum.Base.{
  ℕ, ◌+◌, ◌*◌, ◌^◌, ◌<◌, ◌≡◌, ◌==◌, refl, sym, ap, ◌∙◌, arith, not, Bool, true, false,
  if◌then◌else◌, [], ◌++◌, Bytes, length, length-append, take, drop, take_exact, drop_exact,
  drop_add, take_all,
}
use Prim.Native.Nat.{bit_and}
use mathlib.Core.Path.{ap₂}
use mathlib.Core.List.{append-nil}
use archivum.LittleEndian.{put_u32, put_u64, put_from, get_u64, get_from}
use archivum.LittleEndian.Laws.{get_u32-put_u32, get_u64-put_u64, length-put_u64}
use archivum.Engine.BTree.Node.{
  put_u16, get_u16, get_u8, cell_key, overflowed, value_len, inline_value, overflow_page, size_of,
  build_leaf_cell,
}
use archivum.Engine.BTree.Node.Memory.{get_u16-put_u16}
use archivum.Engine.BTree.Node.Shape.{IsCell}

module _ (k value : Bytes) (spilled : Bool) (total first : ℕ) (key_fits : length k < 2 ^ 16)
    (total_fits : total < 2 ^ 32) where
  abbrev built : Bytes
  built = build_leaf_cell k value spilled total first

  abbrev tail : Bytes
  tail = if spilled then put_u64 first else value

  front : built ≡ put_u16 (length k) ++ drop 2 built
  unfolding build_leaf_cell put_u16 put_u32 put_from
  front = refl

  key_len : get_u16 built ≡ length k
  key_len = ap get_u16 front ∙ get_u16-put_u16 (length k) (drop 2 built) key_fits

  behind_header : drop 7 built ≡ k ++ tail
  unfolding build_leaf_cell put_u16 put_u32 put_from
  behind_header = refl

  pub build_leaf_cell-key : cell_key true built ≡ k
  unfolding cell_key
  build_leaf_cell-key = ap₂ take key_len behind_header ∙ take_exact k tail refl

  pub build_leaf_cell-total : value_len built ≡ total
  unfolding value_len build_leaf_cell put_u16 put_from put_u32 put_u64
  build_leaf_cell-total = get_u32-put_u32 total (k ++ tail) total_fits

  pub build_leaf_cell-overflowed : overflowed built ≡ spilled
  unfolding overflowed build_leaf_cell put_u16 put_from get_u8 get_from
  build_leaf_cell-overflowed = flag spilled
    where
      flag : (s : Bool) → not (bit_and ((if s then 1 else 0) * 1 + 0) 1 == 0) ≡ s
      flag true = refl
      flag false = refl

  behind_key : drop (7 + get_u16 built) built ≡ tail
  behind_key =
      ap (λ n. drop (7 + n) built) key_len
      ∙ drop_add 7 (length k) built
      ∙ ap (drop (length k)) behind_header
      ∙ drop_exact k tail refl

  length-built : length built ≡ 7 + length k + length tail
  unfolding build_leaf_cell put_u16 put_u32 put_from
  length-built = omega (arith, length-append k tail)

-- A cell with its value in it reads back as it was built.
pub build_leaf_cell-inline :
    (k value : Bytes)
    → length k < 2 ^ 16
    → length value < 2 ^ 32
    → IsCell true (build_leaf_cell k value false (length value) 0)
      × (cell_key true (build_leaf_cell k value false (length value) 0) ≡ k)
      × (overflowed (build_leaf_cell k value false (length value) 0) ≡ false)
      × (inline_value (build_leaf_cell k value false (length value) 0) ≡ value)
unfolding size_of inline_value
build_leaf_cell-inline k value key_fits total_fits = (
  rw
      (
        key_len k value false (length value) 0 key_fits total_fits,
        build_leaf_cell-overflowed k value false (length value) 0 key_fits total_fits,
        build_leaf_cell-total k value false (length value) 0 key_fits total_fits,
      )
      (sym (length-built k value false (length value) 0 key_fits total_fits)),
  build_leaf_cell-key k value false (length value) 0 key_fits total_fits,
  build_leaf_cell-overflowed k value false (length value) 0 key_fits total_fits,
  ap₂ take (build_leaf_cell-total k value false (length value) 0 key_fits total_fits)
        (behind_key k value false (length value) 0 key_fits total_fits)
      ∙ take_all (length value) value (omega arith),
)

-- A cell whose value is on overflow pages reads back as it was built.
pub build_leaf_cell-spilled :
    (k : Bytes) (total first : ℕ)
    → length k < 2 ^ 16
    → total < 2 ^ 32
    → first < 2 ^ 64
    → IsCell true (build_leaf_cell k [] true total first)
      × (cell_key true (build_leaf_cell k [] true total first) ≡ k)
      × (overflowed (build_leaf_cell k [] true total first) ≡ true)
      × (value_len (build_leaf_cell k [] true total first) ≡ total)
      × (overflow_page (build_leaf_cell k [] true total first) ≡ first)
unfolding size_of overflow_page
build_leaf_cell-spilled k total first key_fits total_fits first_fits = (
  rw
      (
        key_len k [] true total first key_fits total_fits,
        build_leaf_cell-overflowed k [] true total first key_fits total_fits,
      )
      (sym (
        length-built k [] true total first key_fits total_fits
        ∙ omega (arith, length-put_u64 first))),
  build_leaf_cell-key k [] true total first key_fits total_fits,
  build_leaf_cell-overflowed k [] true total first key_fits total_fits,
  build_leaf_cell-total k [] true total first key_fits total_fits,
  ap get_u64
        (behind_key k [] true total first key_fits total_fits ∙ sym (append-nil (put_u64 first)))
      ∙ get_u64-put_u64 first [] first_fits,
)
