-- ===== src/Engine/Types.antt =====
-- engine/src/engine/types.cpp and engine/include/archivum/engine/types.h: column types, the tagged
-- values that columns carry, and their order. A text is its bytes.
pub mod Order
use Prim.Native.Nat.{Ordering, compare}
use archivum.Base.{ℕ, ◌+◌, ltb, if◌then◌else◌, Bool, true, false, List, [], ◌∷◌, Bytes, length}
use archivum.Base.Int.{ℤ, pos_part, neg_part}

pub data ColumnType : Type 0 where
  integer decimal text blob timestamp boolean uuid : ColumnType

-- `Value`, one constructor for each `Value::Kind`.
pub data Value : Type 0 where
  null : Value
  integer decimal : ℤ → Value
  text blob : Bytes → Value
  timestamp : ℤ → Value
  boolean : Bool → Value
  uuid : Bytes → Value

abbrev pub Row : Type 0
Row = List Value

-- The number of a `Value::Kind`.
unfoldable pub kind : Value → ℕ
kind Value.null = 0
kind (Value.integer i) = 1
kind (Value.decimal i) = 2
kind (Value.text t) = 3
kind (Value.blob b) = 4
kind (Value.timestamp i) = 5
kind (Value.boolean b) = 6
kind (Value.uuid u) = 7

-- `Value::is_null`
abbrev pub is_null : Value → Bool
is_null Value.null = true
is_null v = false

-- `Value::matches`
unfoldable pub matches : Value → ColumnType → Bool
matches Value.null t = true
matches (Value.integer i) ColumnType.integer = true
matches (Value.decimal i) ColumnType.decimal = true
matches (Value.text s) ColumnType.text = true
matches (Value.blob b) ColumnType.blob = true
matches (Value.timestamp i) ColumnType.timestamp = true
matches (Value.boolean b) ColumnType.boolean = true
matches (Value.uuid u) ColumnType.uuid = true
matches v t = false

-- The first comparison that is not equal decides.
abbrev pub and_then : Ordering → Ordering → Ordering
and_then Ordering.lt later = Ordering.lt
and_then Ordering.eq later = later
and_then Ordering.gt later = Ordering.gt

-- `std::memcmp` over the bytes that both have.
unfoldable pub memcmp : Bytes → Bytes → Ordering
memcmp [] ys = Ordering.eq
memcmp (x ∷ xs) [] = Ordering.eq
memcmp (x ∷ xs) (y ∷ ys) = and_then (compare x y) (memcmp xs ys)

-- `memcmp` and then the sizes, as for texts, blobs and the keys of engine/src/engine/btree.cpp.
unfoldable pub compare_bytes : Bytes → Bytes → Ordering
unfolding memcmp
compare_bytes xs ys = and_then (memcmp xs ys) (compare (length xs) (length ys))

unfoldable pub compare_int : ℤ → ℤ → Ordering
compare_int a b = compare (pos_part a + neg_part b) (pos_part b + neg_part a)

abbrev pub bool_number : Bool → ℕ
bool_number false = 0
bool_number true = 1

unfoldable pub compare_kinds : Value → Value → Ordering
unfolding kind
compare_kinds a b = if ltb (kind a) (kind b) then Ordering.lt else Ordering.gt

-- `Value::compare`
unfoldable pub compare_values : Value → Value → Ordering
unfolding compare_bytes compare_int compare_kinds
compare_values Value.null Value.null = Ordering.eq
compare_values Value.null b = Ordering.lt
compare_values a Value.null = Ordering.gt
compare_values (Value.integer i) (Value.integer j) = compare_int i j
compare_values (Value.decimal i) (Value.decimal j) = compare_int i j
compare_values (Value.timestamp i) (Value.timestamp j) = compare_int i j
compare_values (Value.boolean i) (Value.boolean j) = compare (bool_number i) (bool_number j)
compare_values (Value.text s) (Value.text t) = compare_bytes s t
compare_values (Value.blob s) (Value.blob t) = compare_bytes s t
compare_values (Value.uuid s) (Value.uuid t) = memcmp s t
compare_values a b = compare_kinds a b
