-- ===== src/Engine/BTree/Node/Init.antt =====
-- `Node::init` of engine/src/engine/btree.cpp.
use archivum.Base.{
  ℕ, ◌+◌, ◌-◌, ◌≤◌, ◌≡◌, refl, ap, ◌∙◌, arith, [], ◌∷◌, Bytes, length, drop, replicate,
  length-replicate,
}
use archivum.LittleEndian.{put_u64, get_from}
use archivum.LittleEndian.Laws.{length-put_u64}
use archivum.Engine.BTree.Node.{
  get_u16, get_u8, put_u16, poke, node_type, count, set_count, content_start, set_content_start,
  frag, set_frag, set_right, set_prev, init,
}
use archivum.Engine.BTree.Node.Memory.{
  length-poke, length-poke_word, word_back, word_before, get_u16-poke_before, first_byte,
  length-put_u16,
}
use archivum.Engine.BTree.Node.Shape.{tabulate, cell_bytes, cells, total, IsNode}

module _ (page_size type : ℕ) (least : 28 ≤ page_size) (most : page_size ≤ 65536) where
  abbrev zeros : Bytes
  zeros = replicate page_size 0

  abbrev typed : Bytes
  typed = poke 0 (type ∷ []) zeros

  abbrev counted : Bytes
  counted = poke 2 (put_u16 0) typed

  abbrev started : Bytes
  started = poke 4 (put_u16 (page_size - 4)) counted

  abbrev fragged : Bytes
  fragged = poke 6 (put_u16 0) started

  abbrev righted : Bytes
  righted = poke 8 (put_u64 0) fragged

  abbrev done : Bytes
  done = poke 16 (put_u64 0) righted

  init-eq : init page_size type ≡ done
  unfolding init set_count set_content_start set_frag set_right set_prev
  init-eq = refl

  type_within : 0 + 1 ≤ length zeros
  type_within = omega (arith, length-replicate {A = ℕ} page_size 0, least)

  length-typed : length typed ≡ page_size
  length-typed = length-poke 0 (type ∷ []) zeros type_within ∙ length-replicate {A = ℕ} page_size 0

  count_within : 2 + 2 ≤ length typed
  count_within = omega (arith, length-typed, least)

  length-counted : length counted ≡ page_size
  length-counted = length-poke_word 2 0 typed count_within ∙ length-typed

  start_within : 4 + 2 ≤ length counted
  start_within = omega (arith, length-counted, least)

  length-started : length started ≡ page_size
  length-started = length-poke_word 4 (page_size - 4) counted start_within ∙ length-counted

  frag_within : 6 + 2 ≤ length started
  frag_within = omega (arith, length-started, least)

  length-fragged : length fragged ≡ page_size
  length-fragged = length-poke_word 6 0 started frag_within ∙ length-started

  right_within : 8 + length (put_u64 0) ≤ length fragged
  right_within = omega (arith, length-fragged, least, length-put_u64 0)

  length-righted : length righted ≡ page_size
  length-righted = length-poke 8 (put_u64 0) fragged right_within ∙ length-fragged

  prev_within : 16 + length (put_u64 0) ≤ length righted
  prev_within = omega (arith, length-righted, least, length-put_u64 0)

  length-done : length done ≡ page_size
  length-done = length-poke 16 (put_u64 0) righted prev_within ∙ length-righted

  word_kept : (a : ℕ) → a + 2 ≤ 8 → get_u16 (drop a done) ≡ get_u16 (drop a fragged)
  word_kept a h =
      get_u16-poke_before 16 (put_u64 0) righted prev_within a (omega (arith, h))
      ∙ get_u16-poke_before 8 (put_u64 0) fragged right_within a h

  count-done : count done ≡ 0
  unfolding count
  count-done =
      word_kept 2 (omega arith)
      ∙ word_before 6 0 started frag_within 2 (omega arith)
      ∙ word_before 4 (page_size - 4) counted start_within 2 (omega arith)
      ∙ word_back 2 0 typed count_within (omega arith)

  start_done : content_start done ≡ page_size - 4
  unfolding content_start
  start_done =
      word_kept 4 (omega arith)
      ∙ word_before 6 0 started frag_within 4 (omega arith)
      ∙ word_back 4 (page_size - 4) counted start_within (omega (arith, most))

  frag-done : frag done ≡ 0
  unfolding frag
  frag-done = word_kept 6 (omega arith) ∙ word_back 6 0 started frag_within (omega arith)

  type_done : node_type done ≡ type
  unfolding node_type
  type_done =
      first_byte 16 (put_u64 0) righted prev_within (omega arith)
      ∙ first_byte 8 (put_u64 0) fragged right_within (omega arith)
      ∙ first_byte 6 (put_u16 0) started (omega (arith, length-put_u16 0, frag_within))
          (omega arith)
      ∙ first_byte 4 (put_u16 (page_size - 4)) counted
          (omega (arith, length-put_u16 (page_size - 4), start_within)) (omega arith)
      ∙ first_byte 2 (put_u16 0) typed (omega (arith, length-put_u16 0, count_within)) (omega arith)
      ∙ (unfold poke get_u8 get_from in omega arith)

  cells-done : cells done ≡ []
  cells-done = ap (λ n. tabulate (cell_bytes done) n 0) count-done

  IsNode-done : IsNode (page_size - 4) done
  IsNode-done = record {
    size_ok = omega (arith, length-done, least);
    usable_fits = omega (arith, most);
    directory = omega (arith, count-done, start_done, least);
    start_to = omega (arith, start_done);
    slot_from = λ i h. absurd (omega (arith, h, count-done));
    slot_to = λ i h. absurd (omega (arith, h, count-done));
    all_used = omega (arith, start_done, frag-done, ap total cells-done);
  }

-- A fresh page is a node without cells, and without fragments, of the type that was asked for.
pub init-cells :
    (page_size type : ℕ)
    → 28 ≤ page_size
    → page_size ≤ 65536
    → IsNode (page_size - 4) (init page_size type)
      × (cells (init page_size type) ≡ [])
      × (node_type (init page_size type) ≡ type)
      × (frag (init page_size type) ≡ 0)
init-cells page_size type least most =
    unfold init set_count set_content_start set_frag set_right set_prev in
    (
      IsNode-done page_size type least most,
      cells-done page_size type least most,
      type_done page_size type least most,
      frag-done page_size type least most,
    )
