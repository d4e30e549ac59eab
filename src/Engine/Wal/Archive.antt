-- ===== src/Engine/Wal/Archive.antt =====
-- `Wal::close` and `Wal::copy_committed_to` of engine/src/engine/wal.cpp: the copy of the committed part of a log
-- to a second file, which is a second disk here.
use archivum.Base.{
  ℕ, zero, suc, ◌+◌, ◌-◌, ◌^◌, ◌<◌, ◌≤◌, ◌≡◌, ◌==◌, ltb, min, refl, sym, ap, ◌∙◌, arith,
  if◌then◌else◌, Bool, true, false, not, List, [], ◌++◌, Bytes, All, length, take, drop, Bool-cases,
  inl, inr, take_add, take-append, length-append, length-take, length-drop, ==_refl,
}
use archivum.Status.{Status, Result, ok, err, io_error, corrupt}
use archivum.Vfs.{
  Disk, ◌>>◌, read, write, sync, sync_directory, open_truncated, close_file, overwritten,
}
use archivum.Journal.Scan.{quiet}
use archivum.Journal.Log.{overwritten-end}
use archivum.Engine.PageFormat.{WalHeader}
use archivum.Engine.PageFormat.Headers.{IsWalHeader}
use archivum.Engine.Wal.{Wal, frame_offset}
use archivum.Engine.Wal.Operations.{OpenOptions}
use archivum.Engine.Wal.Image.{Transaction, IsTransaction}
use archivum.Engine.Wal.Recovery.{log_of, file_of, end_offset, log_of-IsLog}
use archivum.Engine.Wal.Crash.{Reopens, reopens, after_all-is_open}

-- `Wal::close`
unfoldable pub close_wal : Wal → Disk → Status × Wal × Disk
close_wal w d =
    if not w.is_open
    then (ok tt, w, d)
    else (let (s, d') = close_file d in (s, record w { is_open = false }, d'))

unfoldable pub committed_bytes : Wal → ℕ
committed_bytes w = frame_offset w.page_size (w.last_commit + 1)

abbrev pub buffer_bytes : ℕ
buffer_bytes = 2 ^ 16

-- One round of the copy behind its read.
unfoldable pub copy_block : Result Bytes → ℕ → ℕ → Disk → Disk → Status × Disk × Disk
copy_block (err e) off want d out = (err e, d, out)
copy_block (ok buf) off want d out =
    if not (length buf == want)
    then (err corrupt, d, out)
    else (let (s, out') = write off buf out in (s, d, out'))

-- The rest of the loop behind a round.
unfoldable pub copy_next :
    Status → (Disk → Disk → Status × Disk × Disk) → Disk → Disk → Status × Disk × Disk
copy_next (err e) rest d out = (err e, d, out)
copy_next (ok u) rest d out = rest d out

-- The loop, with the number of bytes as fuel.
unfoldable pub copy_loop : ℕ → ℕ → ℕ → Disk → Disk → Status × Disk × Disk
unfolding copy_block copy_next
copy_loop zero total off d out = (ok tt, d, out)
copy_loop (suc fuel) total off d out =
    if not (ltb off total)
    then (ok tt, d, out)
    else (let want = min buffer_bytes (total - off) in
        let (r, d') = read off want d in
        let (s, d'', out') = copy_block r off want d' out in
        copy_next s (copy_loop fuel total (off + want)) d'' out')

-- What is left to do on the copy when the loop has ended.
unfoldable pub copy_done : Status × Disk × Disk → Status × Disk × Disk
copy_done (err e, d, out) = (err e, d, out)
copy_done (ok u, d, out) = let (s, out') = (do sync; close_file; sync_directory) out in (s, d, out')

unfoldable pub copy_opened : Status → Wal → Disk → Disk → Status × Disk × Disk
unfolding copy_done
copy_opened (err e) w d out = (err e, d, out)
copy_opened (ok u) w d out = copy_done (copy_loop (committed_bytes w) (committed_bytes w) 0 d out)

-- `Wal::copy_committed_to`
unfoldable pub copy_committed_to : Wal → Disk → Disk → Status × Disk × Disk
unfolding copy_opened
copy_committed_to w d out =
    if not w.is_open
    then (err io_error, d, out)
    else (let (s, out') = open_truncated out in copy_opened s w d out')

-- One round copies one block.
copy_loop-block :
    (fuel total off want : ℕ) (content : Bytes)
    → off < total
    → want ≡ min buffer_bytes (total - off)
    → total ≤ length content
    → copy_loop (suc fuel) total off (quiet content) (quiet (take off content))
      ≡ copy_loop fuel total (off + want) (quiet content) (quiet (take (off + want) content))
unfolding copy_loop copy_block copy_next read write
copy_loop-block fuel total off want content h e room =
    rw (more, sym e, whole, ==_refl want)
      (λ i. copy_loop fuel total (off + want) (quiet content) (quiet (extended i)))
  where
    more : ltb off total ≡ true
    more = ground arith

    whole : length (take want (drop off content)) ≡ want
    whole = ground (arith, length-take {0} want (drop off content), length-drop {0} off content)

    at_end : length (take off content) ≡ off
    at_end = ground (arith, length-take {0} off content)

    extended :
        overwritten off (take want (drop off content)) (take off content)
        ≡ take (off + want) content
    extended =
        ap (λ n. overwritten n (take want (drop off content)) (take off content)) (sym at_end)
        ∙ overwritten-end (take off content) (take want (drop off content))
        ∙ sym (take_add off want content)

copy_loop-end :
    (fuel total : ℕ) (content : Bytes)
    → copy_loop fuel total total (quiet content) (quiet (take total content))
      ≡ (ok tt, quiet content, quiet (take total content))
unfolding copy_loop
copy_loop-end zero total content = refl
copy_loop-end (suc fuel) total content = rw (ltb-refl total)
  where
    ltb-refl : (n : ℕ) → ltb n n ≡ false
    ltb-refl n = ground arith

copy_loop-quiet :
    (fuel total off : ℕ) (content : Bytes)
    → off ≤ total
    → total - off ≤ fuel
    → total ≤ length content
    → copy_loop fuel total off (quiet content) (quiet (take off content))
      ≡ (ok tt, quiet content, quiet (take total content))
copy_loop-quiet zero total off content h enough room =
    ap (λ n. copy_loop zero total n (quiet content) (quiet (take n content))) same
    ∙ copy_loop-end zero total content
  where
    same : off ≡ total
    same = omega arith
copy_loop-quiet (suc fuel) total off content h enough room = elim (Bool-cases (ltb off total)) [
  | inr ended ↦
      ap (λ n. copy_loop (suc fuel) total n (quiet content) (quiet (take n content))) (same ended)
      ∙ copy_loop-end (suc fuel) total content
  | inl more ↦
      copy_loop-block fuel total off (min buffer_bytes (total - off)) content (less more) refl room
      ∙ copy_loop-quiet fuel total (off + min buffer_bytes (total - off)) content (ground arith)
          (ground arith) room
]
  where
    same : ltb off total ≡ false → off ≡ total
    same e = ground arith

    less : ltb off total ≡ true → off < total
    less e = ground arith

-- With nothing refused the copy ends, and the second file holds exactly the committed part of the first.
copy_committed_to-quiet :
    (w : Wal) (content old : Bytes) (present : Bool)
    → w.is_open ≡ true
    → committed_bytes w ≤ length content
    → copy_committed_to w
        (quiet content)
        (record { present = present; content = old; outcomes = [] })
      ≡ (ok tt, quiet content, quiet (take (committed_bytes w) content))
unfolding copy_committed_to copy_opened copy_done open_truncated sync close_file sync_directory
    copy_loop committed_bytes
copy_committed_to-quiet w content old present open_ok room = rw (
  open_ok,
  copy_loop-quiet (committed_bytes w) (committed_bytes w) 0 content (omega arith) (omega arith)
      room,
)

module _ (page_size : ℕ) (o : OpenOptions) (h : WalHeader) (ts : List Transaction)
    (v : IsWalHeader h) (page_size_ok : h.page_size ≡ page_size) (db_id_ok : h.db_id ≡ o.db_id)
    (writable : o.read_only ≡ false) (valid : All (IsTransaction page_size) ts)
    (salt1 salt2 : ℕ) where
  abbrev w : Wal
  w = log_of page_size o h ts

  abbrev file : Bytes
  file = file_of page_size o h ts

  committed : committed_bytes w ≡ length file
  unfolding committed_bytes
  committed =
      ap (frame_offset w.page_size)
        (sym (log_of-IsLog page_size o h ts v page_size_ok db_id_ok).next_is)
      ∙ end_offset page_size o h v page_size_ok db_id_ok ts [] valid writable

  -- Archiving a log copies its header and its transactions and nothing of what may stand behind them in its
  -- file, whatever the second file held before, and opening the second file gives the same log.
  pub copy_committed_to-Reopens :
      (tail old : Bytes) (present : Bool)
      → (copy_committed_to w
            (quiet (file ++ tail))
            (record { present = present; content = old; outcomes = [] })
          ≡ (ok tt, quiet (file ++ tail), quiet file))
        × Reopens page_size o salt1 salt2 file w 0 file
  copy_committed_to-Reopens tail old present = (
    copy_committed_to-quiet w (file ++ tail) old present (after_all-is_open _ ts)
          (omega (arith, committed, length-append file tail))
        ∙ (λ i. (ok tt, quiet (file ++ tail), quiet (kept i))),
    reopens page_size o h ts v page_size_ok db_id_ok writable valid salt1 salt2,
  )
    where
      kept : take (committed_bytes w) (file ++ tail) ≡ file
      kept = ap (λ n. take n (file ++ tail)) committed ∙ take-append file tail
