-- ===== src/Engine/BTree/Node.antt =====
-- The node of engine/src/engine/btree.cpp: `struct Node` with its cells, as functions of the bytes of a page.
-- A pointer into the page is the rest of the page from there. `std::size_t` arithmetic is modulo 2^64.
pub mod Memory
pub mod Search
pub mod Shape
pub mod Cell
pub mod Init
pub mod Insert
pub mod Remove
mod Pack
pub mod Links
pub mod Defragment
use Prim.Native.Nat.{bit_and, Ordering}
use archivum.Base.{
  ℕ, zero, suc, ◌+◌, ◌-◌, ◌*◌, ◌/◌, ◌%◌, ◌^◌, ◌==◌, ltb, leb, if◌then◌else◌, Bool, true, false, not,
  ◌&&◌, List, [], ◌∷◌, ◌++◌, Bytes, length, take, drop, replicate,
}
use archivum.LittleEndian.{put_from, put_u32, put_u64, get_from, get_u32, get_u64}
use archivum.Engine.Types.{compare_bytes}
use archivum.Engine.PageFormat.{page_trailer_bytes}

abbrev pub leaf_type : ℕ
leaf_type = 1

abbrev pub interior_type : ℕ
interior_type = 2

abbrev pub node_header : ℕ
node_header = 24

abbrev pub leaf_cell_header : ℕ
leaf_cell_header = 7

abbrev pub interior_cell_header : ℕ
interior_cell_header = 10

abbrev pub flag_overflow : ℕ
flag_overflow = 1

unfoldable pub put_u16 : ℕ → Bytes
unfolding put_from
put_u16 v = put_from 2 0 v

unfoldable pub get_u16 : Bytes → ℕ
unfolding get_from
get_u16 bs = get_from 0 (take 2 bs)

unfoldable pub get_u8 : Bytes → ℕ
unfolding get_from
get_u8 bs = get_from 0 (take 1 bs)

-- `a - b` on `std::size_t`.
unfoldable pub sub_size : ℕ → ℕ → ℕ
sub_size a b = (a + 2 ^ 64 - b) % 2 ^ 64

-- `std::memcpy(p + off, bytes)`
unfoldable pub poke : ℕ → Bytes → Bytes → Bytes
poke off bytes p = take off p ++ (bytes ++ drop (off + length bytes) p)

-- The bytes that `std::memcpy` and `std::memmove` copy.
abbrev pub peek : ℕ → ℕ → Bytes → Bytes
peek off n p = take n (drop off p)

unfoldable pub node_type : Bytes → ℕ
node_type p = get_u8 p

unfoldable pub is_leaf : Bytes → Bool
is_leaf p = node_type p == leaf_type

unfoldable pub count : Bytes → ℕ
count p = get_u16 (drop 2 p)

unfoldable pub set_count : Bytes → ℕ → Bytes
set_count p v = poke 2 (put_u16 v) p

unfoldable pub content_start : Bytes → ℕ
content_start p = get_u16 (drop 4 p)

unfoldable pub set_content_start : Bytes → ℕ → Bytes
set_content_start p v = poke 4 (put_u16 v) p

unfoldable pub frag : Bytes → ℕ
frag p = get_u16 (drop 6 p)

unfoldable pub set_frag : Bytes → ℕ → Bytes
set_frag p v = poke 6 (put_u16 v) p

unfoldable pub right : Bytes → ℕ
right p = get_u64 (drop 8 p)

unfoldable pub set_right : Bytes → ℕ → Bytes
set_right p v = poke 8 (put_u64 v) p

unfoldable pub prev : Bytes → ℕ
prev p = get_u64 (drop 16 p)

unfoldable pub set_prev : Bytes → ℕ → Bytes
set_prev p v = poke 16 (put_u64 v) p

unfoldable pub slot : Bytes → ℕ → ℕ
slot p i = get_u16 (drop (node_header + 2 * i) p)

unfoldable pub set_slot : Bytes → ℕ → ℕ → Bytes
set_slot p i off = poke (node_header + 2 * i) (put_u16 off) p

-- `Node::init` on a page of this size.
unfoldable pub init : ℕ → ℕ → Bytes
init page_size type =
    let usable = page_size - page_trailer_bytes in
    set_prev
      (set_right
        (set_frag
          (set_content_start (set_count (poke 0 (type ∷ []) (replicate page_size 0)) 0) usable) 0)
        0)
      0

-- The accessors of a cell, on the pointer `cell(i)`.
unfoldable pub cell : Bytes → ℕ → Bytes
cell p i = drop (slot p i) p

unfoldable pub cell_key : Bool → Bytes → Bytes
cell_key leaf c =
    take (get_u16 c) (drop (if leaf then leaf_cell_header else interior_cell_header) c)

unfoldable pub key : Bytes → ℕ → Bytes
unfolding cell_key
key p i = cell_key (is_leaf p) (cell p i)

unfoldable pub overflowed : Bytes → Bool
overflowed c = not (bit_and (get_u8 (drop 2 c)) flag_overflow == 0)

unfoldable pub value_len : Bytes → ℕ
value_len c = get_u32 (drop 3 c)

unfoldable pub inline_value : Bytes → Bytes
inline_value c = take (value_len c) (drop (leaf_cell_header + get_u16 c) c)

unfoldable pub overflow_page : Bytes → ℕ
overflow_page c = get_u64 (drop (leaf_cell_header + get_u16 c) c)

unfoldable pub child : Bytes → ℕ
child c = get_u64 (drop 2 c)

-- `Node::cell_size`
unfoldable pub size_of : Bool → Bytes → ℕ
size_of leaf c =
    if leaf
    then leaf_cell_header + get_u16 c + (if overflowed c then 8 else value_len c)
    else interior_cell_header + get_u16 c

unfoldable pub cell_size : Bytes → ℕ → ℕ
unfolding size_of
cell_size p i = size_of (is_leaf p) (cell p i)

unfoldable pub free_space : Bytes → ℕ
free_space p = sub_size (content_start p) (node_header + 2 * count p)

-- The loop of a binary search for the first index at which `below` fails, on the number of rounds that
-- are left.
unfoldable pub search : (ℕ → Bool) → ℕ → ℕ → ℕ → ℕ
search below zero lo hi = lo
search below (suc rounds) lo hi =
    let mid = (lo + hi) / 2 in
    let rest =
      search below rounds (if below mid then mid + 1 else lo) (if below mid then hi else mid) in
    if ltb lo hi then rest else lo

abbrev pub is_less : Ordering → Bool
is_less Ordering.lt = true
is_less o = false

abbrev pub is_equal : Ordering → Bool
is_equal Ordering.eq = true
is_equal o = false

-- `Node::lower_bound`: the slot, and whether it is an exact match.
unfoldable pub lower_bound : Bytes → Bytes → ℕ × Bool
unfolding search
lower_bound p k =
    let lo = search (λ mid. is_less (compare_bytes (key p mid) k)) (count p) 0 (count p) in
    (lo, ltb lo (count p) && is_equal (compare_bytes (key p lo) k))

unfoldable pub fits : Bytes → ℕ → Bool
fits p cell_bytes = leb (cell_bytes + 2) (free_space p)

unfoldable pub fits_after_defrag : Bytes → ℕ → Bool
fits_after_defrag p cell_bytes = leb (cell_bytes + 2) (free_space p + frag p)

-- `Node::insert_cell`
unfoldable pub insert_cell : Bytes → ℕ → Bytes → Bytes
insert_cell p at cell_bytes =
    let n = count p in
    let off = sub_size (content_start p) (length cell_bytes) % 2 ^ 16 in
    let copied = poke off cell_bytes p in
    let moved =
      poke (node_header + 2 * (at + 1)) (peek (node_header + 2 * at) (2 * (n - at)) copied)
        copied in
    set_content_start (set_count (set_slot moved at off) (n + 1)) off

-- `Node::remove_cell`
unfoldable pub remove_cell : Bytes → ℕ → Bytes
remove_cell p at =
    let n = count p in
    let freed = set_frag p (frag p + cell_size p at) in
    let moved =
      poke (node_header + 2 * at) (peek (node_header + 2 * (at + 1)) (2 * (n - at - 1)) freed)
        freed in
    set_count moved (n - 1)

-- The first loop of `Node::defragment`, from cell `i` on: the scratch buffer, where its cells start, and
-- the offsets of the cells.
unfoldable pub pack : Bytes → ℕ → ℕ → Bytes → ℕ → Bytes × ℕ × List ℕ
pack p zero i scratch off = (scratch, off, [])
pack p (suc more) i scratch off =
    let size = cell_size p i in
    let off' = sub_size off size in
    let (filled, start, offs) =
      pack p more (i + 1) (poke off' (take size (cell p i)) scratch) off' in
    (filled, start, off' % 2 ^ 16 ∷ offs)

unfoldable pub set_slots : Bytes → ℕ → List ℕ → Bytes
set_slots p i [] = p
set_slots p i (off ∷ offs) = set_slots (set_slot p i off) (i + 1) offs

-- `Node::defragment`
unfoldable pub defragment : ℕ → Bytes → Bytes
unfolding pack set_slots
defragment usable p =
    let (scratch, off, offs) = pack p (count p) 0 (replicate usable 0) usable in
    set_frag
      (set_content_start (set_slots (poke off (peek off (usable - off) scratch) p) 0 offs) off) 0

unfoldable pub build_leaf_cell : Bytes → Bytes → Bool → ℕ → ℕ → Bytes
build_leaf_cell k value spilled total_len overflow_first =
    put_u16 (length k)
    ++ ((if spilled then flag_overflow else 0) ∷ put_u32 total_len)
    ++ k
    ++ (if spilled then put_u64 overflow_first else value)

unfoldable pub build_interior_cell : Bytes → ℕ → Bytes
build_interior_cell k page = put_u16 (length k) ++ put_u64 page ++ k

unfoldable pub max_cell_bytes : ℕ → ℕ
max_cell_bytes page_size = (page_size - page_trailer_bytes - node_header) / 4 - 2
