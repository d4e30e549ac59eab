-- ===== src/Engine/BTree/Leaf/Fill.antt =====
-- Cells inserted one behind the other into a fresh page, by engine/src/engine/btree.cpp.
use mathlib.Core.List.{append-nil, append_assoc}
use archivum.Base.{
  ℕ, ◌+◌, ◌-◌, ◌*◌, ◌≤◌, ◌≡◌, refl, sym, ap, ◌∙◌, subst, arith, ◌==◌, Bool, true, List, [], ◌∷◌,
  ◌++◌, Bytes, All, length, length-append, take, drop, take_all, drop_all,
}
use archivum.Engine.BTree.Node.{node_type, is_leaf, count, frag, fits, insert_cell, init}
use archivum.Engine.BTree.Node.Shape.{
  cells, cell_bytes, total, total-append, IsCell, IsNode, length-tabulate,
}
use archivum.Engine.BTree.Node.Insert.{insert_cell-cells, room-fits}
use archivum.Engine.BTree.Node.Init.{init-cells}
use archivum.Engine.BTree.Leaf.{total_bytes, fill}

pub total_bytes-eq : (cs : List Bytes) → total_bytes cs ≡ total cs + 2 * length cs
unfolding total_bytes
total_bytes-eq [] = refl
total_bytes-eq (c ∷ cs) = omega (arith, total_bytes-eq cs)

pub length-cells : (p : Bytes) → length (cells p) ≡ count p
length-cells p = length-tabulate (cell_bytes p) (count p) 0

-- A node without fragments of these cells.
pub record Holds (usable type : ℕ) (p : Bytes) (cs : List Bytes) : Type 0 where
  pub node : IsNode usable p
  pub content : cells p ≡ cs
  pub typed : node_type p ≡ type
  pub packed : frag p ≡ 0

abbrev leafy : ℕ → Bool
leafy type = type == 1

module _ (usable type : ℕ) where
  step :
      (p : Bytes) (done : List Bytes) (c : Bytes)
      → Holds usable type p done
      → IsCell (leafy type) c
      → 24 + total_bytes done + length c + 2 ≤ usable
      → Holds usable type (insert_cell p (length done) c) (done ++ c ∷ [])
  step p done c h whole room =
      let (node, content, typed, packed) =
        insert_cell-cells usable p (length done) c h.node (omega (arith, n)) as_cell has_room in
      record {
        node = node;
        content =
            content
            ∙ ap (λ cs. take (length done) cs ++ c ∷ drop (length done) cs) h.content
            ∙ at_end;
        typed = typed ∙ h.typed;
        packed = packed ∙ h.packed;
      }
    where
      n : length done ≡ count p
      n = ap length (sym h.content) ∙ length-cells p

      as_cell : IsCell (is_leaf p) c
      as_cell = unfold is_leaf in subst (λ t. IsCell (t == 1) c) (sym h.typed) whole

      has_room : fits p (length c) ≡ true
      has_room = room-fits usable p (length c) h.node (
          omega
            (arith, h.node.all_used, h.packed, ap total h.content, total_bytes-eq done, n, room))

      at_end : take (length done) done ++ c ∷ drop (length done) done ≡ done ++ c ∷ []
      at_end = λ i.
          take_all (length done) done (omega arith) i
          ++ c ∷ drop_all (length done) done (omega arith) i

  fill-Holds :
      (p : Bytes) (done cs : List Bytes)
      → Holds usable type p done
      → All (IsCell (leafy type)) cs
      → 24 + total_bytes (done ++ cs) ≤ usable
      → Holds usable type (fill p (length done) cs) (done ++ cs)
  unfolding fill
  fill-Holds p done [] h a room = subst (Holds usable type p) (sym (append-nil done)) h
  fill-Holds p done (c ∷ cs) h a room =
      subst (λ m. Holds usable type (fill (insert_cell p (length done) c) m cs) (done ++ c ∷ cs))
        more
        (subst (Holds usable type _) (append_assoc done (c ∷ []) cs) (
          fill-Holds (insert_cell p (length done) c) (done ++ c ∷ []) cs
            (step p done c h a.0 (omega (arith, room, whole, total_bytes-eq done, split))) a.1
            (omega (arith, room, ap total_bytes (append_assoc done (c ∷ []) cs)))))
    where
      more : length (done ++ c ∷ []) ≡ length done + 1
      more = length-append done (c ∷ [])

      whole : total_bytes (done ++ c ∷ cs) ≡ total (done ++ c ∷ cs) + 2 * length (done ++ c ∷ cs)
      whole = total_bytes-eq (done ++ c ∷ cs)

      split :
          total (done ++ c ∷ cs) + 2 * length (done ++ c ∷ cs)
          ≡ total done + 2 * length done + length c + 2 + total cs + 2 * length cs
      split = omega (arith, total-append done (c ∷ cs), length-append {0} done (c ∷ cs))

-- Filling a fresh page with cells for which it has room gives a node of exactly these cells.
pub fill-init :
    (page_size type : ℕ) (cs : List Bytes)
    → 28 ≤ page_size
    → page_size ≤ 65536
    → All (IsCell (leafy type)) cs
    → 28 + total_bytes cs ≤ page_size
    → Holds (page_size - 4) type (fill (init page_size type) 0 cs) cs
fill-init page_size type cs least most a room =
    let (node, content, typed, packed) = init-cells page_size type least most in
    fill-Holds (page_size - 4) type (init page_size type) [] cs
      (record { node = node; content = content; typed = typed; packed = packed }) a
      (omega (arith, room))
