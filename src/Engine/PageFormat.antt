-- ===== src/Engine/PageFormat.antt =====
-- engine/src/engine/page_format.cpp and engine/include/archivum/engine/page_format.h: the database
-- header, free pages, the headers of the log and of its frames, and the page trailer.
-- An `encode` returns the buffer that the source writes into.
pub mod Trailer
pub mod Headers
pub mod Chain
mod Examples
use archivum.Base.{
  ℕ, ◌+◌, ◌-◌, ◌==◌, ltb, if◌then◌else◌, Bool, true, false, not, ◌&&◌, ◌||◌, [], ◌∷◌, ◌++◌, Bytes,
  length, take, drop, replicate, concat,
}
use Prim.Native.Nat.{bit_and}
use archivum.Base.Int.{ℤ, to_u64, to_i64}
use archivum.Status.{Result, ok, corrupt, unsupported, require, ◌>>◌}
use archivum.LittleEndian.{put_u32, put_u64, get_u32, get_u64}
use archivum.Crc32c.{crc32c}

abbrev pub min_page_size : ℕ
min_page_size = 512

abbrev pub max_page_size : ℕ
max_page_size = 65536

abbrev pub page_trailer_bytes : ℕ
page_trailer_bytes = 4

-- `memcmp(…) == 0`
unfoldable pub bytes_eq : Bytes → Bytes → Bool
bytes_eq [] [] = true
bytes_eq [] (y ∷ ys) = false
bytes_eq (x ∷ xs) [] = false
bytes_eq (x ∷ xs) (y ∷ ys) = x == y && bytes_eq xs ys

-- The page has at least the four bytes of its trailer.
unfoldable pub seal_page : Bytes → Bytes
seal_page page =
    let body = take (length page - page_trailer_bytes) page in body ++ put_u32 (crc32c 0 body)

unfoldable pub page_checksum_ok : Bytes → Bool
page_checksum_ok page =
    if ltb (length page) (page_trailer_bytes + 1)
    then false
    else let body = length page - page_trailer_bytes in
      get_u32 (drop body page) == crc32c 0 (take body page)

pub record DbHeader : Type 0 where
  pub page_size : ℕ
  pub format_version : ℕ
  pub page_count : ℕ
  pub freelist_head : ℕ
  pub freelist_count : ℕ
  pub change_counter : ℕ
  pub db_id : Bytes
  pub commit_time_us : ℤ

-- "ARCHVDB1"
abbrev pub db_magic : Bytes
db_magic = 0x41 ∷ 0x52 ∷ 0x43 ∷ 0x48 ∷ 0x56 ∷ 0x44 ∷ 0x42 ∷ 0x31 ∷ []

abbrev pub db_format_version : ℕ
db_format_version = 3

abbrev pub db_encoded_bytes : ℕ
db_encoded_bytes = 72

-- `DbHeader::encode`
unfoldable pub encode_db_header : DbHeader → Bytes → Bytes
encode_db_header h page = concat (
    db_magic
    ∷ put_u32 h.page_size
    ∷ put_u32 h.format_version
    ∷ put_u64 h.page_count
    ∷ put_u64 h.freelist_head
    ∷ put_u64 h.freelist_count
    ∷ put_u64 h.change_counter
    ∷ h.db_id
    ∷ put_u64 (to_u64 h.commit_time_us)
    ∷ drop db_encoded_bytes page
    ∷ [])

unfoldable pub read_db_header : Bytes → DbHeader
read_db_header p = record {
  page_size = get_u32 (drop 8 p);
  format_version = get_u32 (drop 12 p);
  page_count = get_u64 (drop 16 p);
  freelist_head = get_u64 (drop 24 p);
  freelist_count = get_u64 (drop 32 p);
  change_counter = get_u64 (drop 40 p);
  db_id = take 16 (drop 48 p);
  commit_time_us = to_i64 (get_u64 (drop 64 p));
}

abbrev pub page_size_bad : ℕ → Bool
page_size_bad s = ltb s min_page_size || ltb max_page_size s || not (bit_and s (s - 1) == 0)

-- `DbHeader::decode`
unfoldable pub decode_db_header : Bytes → Result DbHeader
decode_db_header page = do
  require (not (ltb (length page) db_encoded_bytes)) corrupt
  require (bytes_eq (take 8 page) db_magic) corrupt
  let h = read_db_header page
  require (h.format_version == db_format_version) unsupported
  require (not (page_size_bad h.page_size)) corrupt
  require (not (h.page_count == 0)) corrupt
  ok h

-- "ARCHFREE"
abbrev pub free_magic : Bytes
free_magic = 0x41 ∷ 0x52 ∷ 0x43 ∷ 0x48 ∷ 0x46 ∷ 0x52 ∷ 0x45 ∷ 0x45 ∷ []

-- `FreePage` holds the number of the next free page.
unfoldable pub encode_free_page : ℕ → Bytes → Bytes
encode_free_page next page = free_magic ++ (put_u64 next ++ drop 16 page)

unfoldable pub decode_free_page : Bytes → Result ℕ
decode_free_page page = do
  require (not (ltb (length page) 16) && bytes_eq (take 8 page) free_magic) corrupt
  ok (get_u64 (drop 8 page))

pub record WalHeader : Type 0 where
  pub page_size : ℕ
  pub salt1 : ℕ
  pub salt2 : ℕ
  pub db_id : Bytes
  pub base_change_counter : ℕ

-- "ARCHWAL1"
abbrev pub wal_magic : Bytes
wal_magic = 0x41 ∷ 0x52 ∷ 0x43 ∷ 0x48 ∷ 0x57 ∷ 0x41 ∷ 0x4C ∷ 0x31 ∷ []

-- The bytes that the header's checksum covers.
unfoldable pub wal_header_fields : WalHeader → Bytes
wal_header_fields h = concat (
    wal_magic
    ∷ put_u32 h.page_size
    ∷ put_u32 h.salt1
    ∷ put_u32 h.salt2
    ∷ h.db_id
    ∷ put_u64 h.base_change_counter
    ∷ [])

-- `WalHeader::encode` into a buffer of exactly 48 bytes.
unfoldable pub encode_wal_header : WalHeader → Bytes
encode_wal_header h = let fields = wal_header_fields h in fields ++ put_u32 (crc32c 0 fields)

unfoldable pub read_wal_header : Bytes → WalHeader
read_wal_header p = record {
  page_size = get_u32 (drop 8 p);
  salt1 = get_u32 (drop 12 p);
  salt2 = get_u32 (drop 16 p);
  db_id = take 16 (drop 20 p);
  base_change_counter = get_u64 (drop 36 p);
}

-- `WalHeader::decode`
unfoldable pub decode_wal_header : Bytes → Result WalHeader
decode_wal_header p = do
  require (not (ltb (length p) 48)) corrupt
  require (bytes_eq (take 8 p) wal_magic) corrupt
  require (get_u32 (drop 44 p) == crc32c 0 (take 44 p)) corrupt
  ok (read_wal_header p)

-- `WalHeader::chain_seed`
unfoldable pub chain_seed : WalHeader → ℕ
chain_seed h = get_u32 (drop 44 (encode_wal_header h))

pub record WalFrameHeader : Type 0 where
  pub page_no : ℕ
  pub db_size_after_commit : ℕ
  pub salt1 : ℕ
  pub salt2 : ℕ
  pub checksum : ℕ

unfoldable pub chained_checksum : Bytes → Bytes → ℕ → ℕ
chained_checksum header_with_zero_checksum page previous =
    crc32c (crc32c (crc32c 0 (put_u32 previous)) header_with_zero_checksum) page

-- The fields of a frame header with the given checksum field; four bytes at the end are unused.
unfoldable pub frame_bytes : WalFrameHeader → ℕ → Bytes
frame_bytes fh checksum = concat (
    put_u64 fh.page_no
    ∷ put_u64 fh.db_size_after_commit
    ∷ put_u32 fh.salt1
    ∷ put_u32 fh.salt2
    ∷ put_u32 checksum
    ∷ replicate 4 0
    ∷ [])

-- `WalFrameHeader::encode`: the 32 bytes, and the header with its checksum set.
unfoldable pub encode_frame_header : WalFrameHeader → Bytes → ℕ → Bytes × WalFrameHeader
encode_frame_header fh page previous =
    let c = chained_checksum (frame_bytes fh 0) page previous in
    (frame_bytes fh c, record fh { checksum = c })

unfoldable pub read_frame_header : Bytes → ℕ → WalFrameHeader
read_frame_header copy stored = record {
  page_no = get_u64 copy;
  db_size_after_commit = get_u64 (drop 8 copy);
  salt1 = get_u32 (drop 16 copy);
  salt2 = get_u32 (drop 20 copy);
  checksum = stored;
}

-- `WalFrameHeader::decode`
unfoldable pub decode_frame_header : Bytes → Bytes → ℕ → Result WalFrameHeader
decode_frame_header bytes page previous = do
  require (not (ltb (length bytes) 32)) corrupt
  let stored = get_u32 (drop 24 bytes)
  let copy = take 24 bytes ++ (replicate 4 0 ++ take 4 (drop 28 bytes))
  require (chained_checksum copy page previous == stored) corrupt
  ok (read_frame_header copy stored)
