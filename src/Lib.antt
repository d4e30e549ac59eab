-- ===== src/Lib.antt =====
-- Archivum: a single-file storage engine with checksummed pages, a write-ahead log and an
-- append-only journal (engine/), the shared core of its applications (core/), the Punchline time
-- clock (modules/punchline/) and the HTTP server around them (server/). This library models the
-- engine's storage formats and durable logs, and the approval rules of Punchline, as functions
-- that compute, with their theorems.
--
-- The parts and how they interact: a `Vfs` gives files; `Journal` and the write-ahead log each own
-- one file, frame what they write by CRC-32C and read it back after a crash; the record codec
-- turns rows into bytes and index keys into bytes whose order is the order of the values; the
-- store keeps rows in B-trees over pages of the data file and the log; Punchline reads and writes
-- rows through the store, its rules are checked before each change, and its lifecycle takes a
-- timesheet from recorded to locked.
--
-- Which file models which part:
--
-- - Base, Base/Tests, Base/Lists, Base/Bits, Base/Int: what the other modules share: names passed
--   on, tests, lists over the native numbers, laws of the exclusive or, signed integers and
--   `std::int64_t`.
-- - Status: engine/include/archivum/status.h. `ErrorCode`, and `Result` with its chain `>>=` for
--   `if (!r.ok()) return r.status()`. The texts of messages are not modelled.
-- - LittleEndian: `put_u32`, `put_u64`, `get_u32`, `get_u64` of engine/src/engine/page_format.cpp
--   and engine/src/journal.cpp. LittleEndian/Laws: their laws.
-- - Crc32c: engine/src/crc32c.cpp. `make_table` runs eight rounds for each byte, `crc32c` is the
--   loop over the bytes with the checksum of what came before as its seed. Rounds, Bitwise,
--   Incremental and Detection hold its lemmas.
-- - Vfs: engine/include/archivum/vfs.h with the contents of engine/testing/src/mem_vfs.cpp: the
--   one file of a component and a list of outcomes, so that any operation can be refused, and a
--   refused write or truncation leaves any contents. `Io` threads it.
-- - Journal: engine/src/journal.cpp. `open_journal`, `recover` with its loop `scan`, `append`,
--   `read_record` and `close`, named as the methods. Image describes the file of a journal, Scan
--   and Recovery the loop, Log what appending does, Crash what a crash during an append leaves,
--   Lookup reading.
-- - Engine/PageFormat: engine/src/engine/page_format.cpp: seals of pages, headers of the data file
--   and the log, frames of the log chained by their checksums. Trailer, Headers and Chain hold
--   their lemmas.
-- - Engine/Types, Engine/Record, Engine/Record/Rows: engine/src/engine/types.cpp and record.cpp:
--   values and their order, `encode_key` and `decode_key`, `encode_row` and `decode_row`.
--   BigEndian, KeyOrder, KeyRoundTrip and Rows/RoundTrip hold their lemmas.
-- - Engine/Wal, Engine/Wal/Operations: engine/src/engine/wal.cpp: `recover` and its loop `replay`,
--   `open_wal`, `find`, `latest_in` (`latest_frames`), `read_frame_page`, `append_transaction`,
--   `discard_uncommitted` and `reset`. Engine/Wal/Lookup: the look-up of a page by a snapshot;
--   Engine/Wal/Visible: what it finds of a new transaction; Engine/Wal/Failure: a failed append.
--   Engine/Wal/Image describes the file of a log as its header and the bytes of its transactions;
--   Replay, Transactions, Logs and Torn follow the loop of `recover` over a frame, a transaction,
--   all transactions and one that was written in part; Engine/Wal/Recovery puts them together,
--   Engine/Wal/Crash lets an append fail and opens the file again. Engine/Wal/Archive: `close` and
--   `copy_committed_to`, whose second file is a second disk.
-- - Engine/BTree/Node: `struct Node` of engine/src/engine/btree.cpp on the bytes of a page.
--   Memory: reads of a page that was written to; Shape: a node as the list of its cells, with the
--   layout that its operations keep; Search, Init, Insert, Remove, Pack, Defragment, Links and
--   Cell: one operation each. Engine/BTree/Leaf: what `get`, `put`, `insert_into_leaf` and `erase`
--   do to the leaf that they found, with Fill, Split, Place, Entries and Map for its lemmas.
--   Engine/BTree/Pages: `PageReader` and `PageWriter` as an interface with its laws, which
--   Engine/WriteTxn/Laws fills; Engine/BTree/Overflow: `write_overflow`, `read_overflow` and
--   `free_overflow` over it, with RoundTrip for a value that is read back. Engine/BTree/Descent:
--   `find_leaf` and `get`, with Routes for the way that the separators lead.
-- - Engine/WriteTxn: `WriteTxn` of engine/src/engine/db.cpp and its adapter `WriteTxnPages` of
--   engine/include/archivum/engine/btree.h: `read_page`, `write_page`, `allocate_page` and
--   `free_page` over the pages that the transaction wrote and its header with the free list; the
--   committed pages are a parameter of which nothing is assumed. View: what an operation leaves of
--   a page; Laws: the interface of the B-tree over it; PageLists and FreeList: the free list as a
--   list of pages; Taken and Release: the free list while a value takes overflow pages and gives
--   them back.
-- - Punchline/Fields, Punchline/Data: modules/punchline/src/data.cpp: each row type as a record
--   with its `to_row` and `from_row`. Punchline/Queries: the reads that the lifecycle makes.
-- - Punchline/Reader, Punchline/Recorder: the interfaces through which the rules and the lifecycle
--   use the store (engine/include/archivum/engine/store.h), the recorder
--   (core/include/archivum/core/recorder.h), holds and exceptions.
-- - Punchline/Rules: modules/punchline/src/rules.cpp, a function for each rule. Supervisors and
--   Transitions treat what a passed rule says.
-- - Punchline/Lifecycle, Punchline/Lifecycle/Lock: modules/punchline/src/lifecycle.cpp:
--   `transition` and `lock_period`. Moves, Transition and Locking treat what their success says.
--
-- Numbers: a byte, a size, an offset or an unsigned integer is a native number, with the
-- wrap-around of `std::uint32_t` and `std::uint64_t` written out where bytes are made of it; a
-- signed integer is an integer, with `IsInt64` where its range matters. Offsets and sizes of files
-- are taken not to overflow 64 bits.
--
-- Fuel: `Journal.scan` and `Engine.Wal.replay` take the size of the file as fuel, and `copy_loop`
-- the number of bytes to copy; each of their rounds moves forward by at least one byte. `search`
-- takes the number of cells, of which each round leaves out one at least; `read_chain` takes the
-- bytes that remain, of which a page holds one at least. `free_chain` and `descend` take the hops
-- and the levels at which the source gives up.
--
-- Not modelled: of the B-tree (engine/src/engine/btree.cpp) `put` and `erase` beyond the leaf,
-- that is the insertion of separators into interior nodes and the removal of empty pages,
-- `create`, `destroy`, `check` and cursors; of db.cpp opening, committing, checkpoints, readers
-- and the page cache; the catalog, constraints and queries of the store (store.cpp), point-in-time
-- recovery and migration, entropy, and the file systems of the operating systems; in core,
-- accounts, credentials, roles, ids and the recorder itself; in Punchline, the schema, sync of
-- devices, payroll, exceptions, rollback, schedules and time zones; the server, which is
-- configuration, routing and I/O, and third_party.
pub mod Base
pub mod Status
pub mod LittleEndian
pub mod Crc32c
pub mod Vfs
pub mod Journal
pub mod Engine
pub mod Punchline
