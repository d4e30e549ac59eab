-- ===== src/Engine/PageFormat/Headers.antt =====
-- Headers read back as they were written.
use archivum.Base.{
  ℕ, ◌^◌, ◌≤◌, ◌<◌, ◌≡◌, refl, sym, ap, ◌∙◌, arith, true, false, ltb, Bytes, [], ◌++◌, length, take,
  drop, length-append, take_exact, drop_exact, ==_refl,
}
use archivum.Base.Int.{ℤ, IsInt64, to_u64, to_i64, to_i64-to_u64, to_u64-lt}
use archivum.Status.{ok}
use archivum.LittleEndian.{put_from, put_u32, put_u64, get_u32, get_u64}
use archivum.LittleEndian.Laws.{get_u32-put_u32, get_u64-put_u64, length-put_u32}
use mathlib.Core.List.{append-nil, append_assoc}
use archivum.Crc32c.{crc32c}
use archivum.Crc32c.Incremental.{crc32c-lt}
use archivum.Engine.PageFormat.{
  bytes_eq, DbHeader, db_magic, page_size_bad, encode_db_header, read_db_header, decode_db_header,
  free_magic, wal_magic, encode_free_page, decode_free_page, WalHeader, wal_header_fields,
  read_wal_header, encode_wal_header, decode_wal_header, chain_seed,
}

-- What `decode` accepts, and the ranges of the header's machine integers.
pub record IsDbHeader (h : DbHeader) : Type 0 where
  pub page_size_ok : page_size_bad h.page_size ≡ false
  pub version_ok : h.format_version ≡ 3
  pub page_count_pos : 0 < h.page_count
  pub page_count_fits : h.page_count < 2 ^ 64
  pub freelist_head_fits : h.freelist_head < 2 ^ 64
  pub freelist_count_fits : h.freelist_count < 2 ^ 64
  pub change_counter_fits : h.change_counter < 2 ^ 64
  pub db_id_length : length h.db_id ≡ 16
  pub commit_time_fits : IsInt64 h.commit_time_us

page_size_range : (s : ℕ) → page_size_bad s ≡ false → s ≤ 65536
page_size_range s h = ground arith

-- The commit time stands behind the sixteen bytes of the database's id.
commit_time-back :
    (id rest : Bytes) (t : ℤ)
    → length id ≡ 16
    → IsInt64 t
    → to_i64 (get_u64 (drop 16 (id ++ (put_u64 (to_u64 t) ++ rest)))) ≡ t
commit_time-back id rest t e r =
    ap (λ bs. to_i64 (get_u64 bs)) (drop_exact id (put_u64 (to_u64 t) ++ rest) e)
    ∙ ap to_i64 (get_u64-put_u64 (to_u64 t) rest (to_u64-lt t))
    ∙ to_i64-to_u64 t r

module _ (h : DbHeader) (page : Bytes) (v : IsDbHeader h) where
  abbrev encoded : Bytes
  encoded = encode_db_header h page

  abbrev behind : Bytes
  behind = drop 72 page ++ []

  read-encode : read_db_header encoded ≡ h
  unfolding read_db_header encode_db_header put_u32 put_u64 put_from
  read-encode = λ i. record {
    page_size =
        get_u32-put_u32 h.page_size (drop 12 encoded)
          (omega (arith, page_size_range h.page_size v.page_size_ok)) i;
    format_version =
        get_u32-put_u32 h.format_version (drop 16 encoded) (omega (arith, v.version_ok)) i;
    page_count = get_u64-put_u64 h.page_count (drop 24 encoded) v.page_count_fits i;
    freelist_head = get_u64-put_u64 h.freelist_head (drop 32 encoded) v.freelist_head_fits i;
    freelist_count = get_u64-put_u64 h.freelist_count (drop 40 encoded) v.freelist_count_fits i;
    change_counter = get_u64-put_u64 h.change_counter (drop 48 encoded) v.change_counter_fits i;
    db_id = take_exact h.db_id (put_u64 (to_u64 h.commit_time_us) ++ behind) v.db_id_length i;
    commit_time_us =
        commit_time-back h.db_id behind h.commit_time_us v.db_id_length v.commit_time_fits i;
  }

  encoded_magic : bytes_eq (take 8 encoded) db_magic ≡ true
  unfolding encode_db_header bytes_eq
  encoded_magic = refl

  encoded_length : ltb (length encoded) 72 ≡ false
  unfolding encode_db_header put_u32 put_u64 put_from
  encoded_length = long_enough _ (omega (arith, length-append {0} h.db_id, v.db_id_length))
    where
      long_enough : (n : ℕ) → 72 ≤ n → ltb n 72 ≡ false
      long_enough n l = ground arith

  -- A valid header written over the start of a page reads back as it was.
  pub decode-encode_db_header : decode_db_header encoded ≡ ok h
  unfolding decode_db_header
  decode-encode_db_header =
      rw (encoded_length, encoded_magic, read-encode, v.version_ok, v.page_size_ok)
        (ground (arith, v.page_count_pos))

-- A free page's link reads back as it was written.
pub decode-encode_free_page :
    (next : ℕ) (page : Bytes)
    → next < 2 ^ 64
    → decode_free_page (encode_free_page next page) ≡ ok next
unfolding decode_free_page encode_free_page
decode-encode_free_page next page h =
    rw (long, magic) (ap ok (get_u64-put_u64 next (drop 16 page) h))
  where
    long : ltb (length (encode_free_page next page)) 16 ≡ false
    long = unfold put_u64 put_from in ground arith

    magic : bytes_eq (take 8 (encode_free_page next page)) free_magic ≡ true
    magic = unfold bytes_eq in refl

-- The ranges of a log header's machine integers.
pub record IsWalHeader (h : WalHeader) : Type 0 where
  pub page_size_fits : h.page_size < 2 ^ 32
  pub salt1_fits : h.salt1 < 2 ^ 32
  pub salt2_fits : h.salt2 < 2 ^ 32
  pub db_id_length : length h.db_id ≡ 16
  pub base_fits : h.base_change_counter < 2 ^ 64

module _ (h : WalHeader) (v : IsWalHeader h) where
  abbrev fields : Bytes
  fields = wal_header_fields h

  fields_length : length fields ≡ 44
  unfolding wal_header_fields put_u32 put_u64 put_from
  fields_length = omega (arith, length-append {0} h.db_id, v.db_id_length)

  abbrev crc : Bytes
  crc = put_u32 (crc32c 0 fields)

  wal_magic_back : bytes_eq (take 8 (fields ++ crc)) wal_magic ≡ true
  unfolding wal_header_fields bytes_eq
  wal_magic_back = refl

  stored_back : get_u32 (drop 44 (fields ++ crc)) ≡ crc32c 0 fields
  stored_back =
      ap get_u32 (drop_exact fields crc fields_length ∙ sym (append-nil crc))
      ∙ get_u32-put_u32 (crc32c 0 fields) [] (crc32c-lt 0 fields)

  covered : crc32c 0 (take 44 (fields ++ crc)) ≡ crc32c 0 fields
  covered = ap (crc32c 0) (take_exact fields crc fields_length)

  long : ltb (length (fields ++ crc)) 48 ≡ false
  long = whole _ (omega (arith, length-append {0} fields crc, fields_length, length-put_u32))
    where
      whole : (n : ℕ) → n ≡ 48 → ltb n 48 ≡ false
      whole n e = ground arith

  abbrev base : Bytes
  base = put_u64 h.base_change_counter ++ []

  read-encode_wal : read_wal_header (fields ++ crc) ≡ h
  unfolding read_wal_header wal_header_fields put_u32 put_u64 put_from
  read-encode_wal = λ i. record {
    page_size = get_u32-put_u32 h.page_size (drop 12 (fields ++ crc)) v.page_size_fits i;
    salt1 = get_u32-put_u32 h.salt1 (drop 16 (fields ++ crc)) v.salt1_fits i;
    salt2 = get_u32-put_u32 h.salt2 (drop 20 (fields ++ crc)) v.salt2_fits i;
    db_id =
        (ap (take 16) (append_assoc h.db_id base crc)
            ∙ take_exact h.db_id (base ++ crc) v.db_id_length)
          i;
    base_change_counter =
        (ap (λ bs. get_u64 (drop 16 bs)) (append_assoc h.db_id base crc)
            ∙ ap get_u64 (drop_exact h.db_id (base ++ crc) v.db_id_length)
            ∙ get_u64-put_u64 h.base_change_counter crc v.base_fits)
          i;
  }

  -- A log header reads back as it was written, and the chain of frame checksums starts from its own.
  pub decode-encode_wal_header :
      (decode_wal_header (encode_wal_header h) ≡ ok h)
      × (chain_seed h ≡ crc32c 0 (wal_header_fields h))
  unfolding decode_wal_header encode_wal_header chain_seed
  decode-encode_wal_header =
      (rw (long, wal_magic_back, stored_back, covered, ==_refl, read-encode_wal), stored_back)

  pub length-encode_wal_header : length (encode_wal_header h) ≡ 48
  unfolding encode_wal_header
  length-encode_wal_header =
      omega (arith, length-append {0} fields crc, fields_length, length-put_u32)
