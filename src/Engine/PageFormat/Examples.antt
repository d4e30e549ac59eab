-- ===== src/Engine/PageFormat/Examples.antt =====
-- The page formats' theorems at concrete headers and pages.
use archivum.Base.{◌≡◌, refl, arith, [], ◌∷◌, ◌++◌, Bytes, length, take, replicate, true, false}
use archivum.Base.Int.{pos}
use archivum.Status.{ok, err, corrupt}
use archivum.Crc32c.{crc32c}
use archivum.LittleEndian.{put_u32}
use archivum.LittleEndian.Laws.{length-put_u32}
use archivum.Engine.PageFormat.{
  DbHeader, WalFrameHeader, encode_db_header, decode_db_header, encode_frame_header,
  decode_frame_header, seal_page, page_checksum_ok,
}
use archivum.Engine.PageFormat.Headers.{IsDbHeader, decode-encode_db_header}
use archivum.Engine.PageFormat.Trailer.{page_checksum_ok-seal_page, page_checksum_detects_burst}
use archivum.Engine.PageFormat.Chain.{decode-encode_frame_header, decode_frame_header-other}

abbrev id : Bytes
id = replicate 16 5

abbrev db : DbHeader
db = record {
  page_size = 4096;
  format_version = 3;
  page_count = 12;
  freelist_head = 4;
  freelist_count = 1;
  change_counter = 77;
  db_id = id;
  commit_time_us = pos 1_700_000_000_000_000;
}

db-IsDbHeader : IsDbHeader db
db-IsDbHeader = record {
  page_size_ok = refl;
  version_ok = refl;
  page_count_pos = omega arith;
  page_count_fits = omega arith;
  freelist_head_fits = omega arith;
  freelist_count_fits = omega arith;
  change_counter_fits = omega arith;
  db_id_length = refl;
  commit_time_fits = omega arith;
}

decode-encode_db_header_example : decode_db_header (encode_db_header db (replicate 512 0)) ≡ ok db
decode-encode_db_header_example = decode-encode_db_header db (replicate 512 0) db-IsDbHeader

abbrev frame_three : WalFrameHeader
frame_three = record { page_no = 3; db_size_after_commit = 0; salt1 = 9; salt2 = 8; checksum = 0 }

abbrev page : Bytes
page = 1 ∷ 2 ∷ 3 ∷ []

decode-encode_frame_header_example :
    decode_frame_header (encode_frame_header frame_three page 5).0 page 5
    ≡ ok (encode_frame_header frame_three page 5).1
decode-encode_frame_header_example = decode-encode_frame_header frame_three page (omega arith) 5

decode_frame_header-other_example :
    decode_frame_header (encode_frame_header frame_three page 5).0 page 6 ≡ err corrupt
decode_frame_header-other_example =
    decode_frame_header-other frame_three page (omega arith) 5 6 (omega arith) (omega arith)
      (omega arith) (omega arith)

page_checksum_ok-seal_page_example :
    (page_checksum_ok (seal_page (1 ∷ 2 ∷ 0 ∷ 0 ∷ 0 ∷ 0 ∷ [])) ≡ true)
    × (length (seal_page (1 ∷ 2 ∷ 0 ∷ 0 ∷ 0 ∷ 0 ∷ [])) ≡ 6)
    × (take 2 (seal_page (1 ∷ 2 ∷ 0 ∷ 0 ∷ 0 ∷ 0 ∷ [])) ≡ 1 ∷ 2 ∷ [])
page_checksum_ok-seal_page_example =
    page_checksum_ok-seal_page (1 ∷ 2 ∷ []) (replicate 4 0) (omega arith) refl

abbrev trailer : Bytes
trailer = put_u32 (crc32c 0 (1 ∷ 2 ∷ 3 ∷ 4 ∷ []))

page_checksum_detects_burst_example : page_checksum_ok ((1 ∷ 9 ∷ 3 ∷ 4 ∷ []) ++ trailer) ≡ false
unfolding seal_page
page_checksum_detects_burst_example =
    page_checksum_detects_burst (1 ∷ []) (2 ∷ []) (9 ∷ []) (3 ∷ 4 ∷ []) trailer (omega arith)
      (omega arith) (omega arith) (omega arith) (length-put_u32 _) refl (omega arith) (λ e. cc)
      (page_checksum_ok-seal_page (1 ∷ 2 ∷ 3 ∷ 4 ∷ []) (replicate 4 0) (omega arith) refl).0
