-- ===== src/Lib.antt =====
-- CSU-DBMS, the storage engine's core: which pages of a file are allocated, which page leaves the buffer pool,
-- how records lie in pages and files and are redone from the log, what a transaction sees and undoes, and how
-- log entries reach the log file. Paths are those of the repository.
--
-- Replacement models src/observer/storage/os/replacement/replacement_policy.cpp. The frame manager
-- tells a policy of insertions, accesses and removals of pages (the type Event of Replacement/Frame) and
-- asks it for a victim, with a predicate that says which pages may leave.
--   Replacement/Ordered: LRU and FIFO. `order_` is a list of nodes with ids and `positions_` a map from
--     pages to ids, as an iterator stays valid when other nodes move; Ordered/Nodes, Ordered/Linked,
--     Ordered/Refine and Ordered/Recency prove the index, the abstract queue and the victim.
--   Replacement/LruK: LRU-K for K = 2. `histories_` is an association list (Replacement/FrameMap) in
--     some order, `current_timestamp_` wraps at 2^64; LruK/History and LruK/Victim.
--   Replacement/Clock: the ring, the reference bits and the hand. The loop of `choose_victim` is bounded
--     by two laps in the code and has that count as its fuel; a read outside the ring is the
--     outcome `out_of_range`. Clock/Ring, Clock/Scan and Clock/Invariant.
--
-- Trx models src/observer/storage/trx.
--   Trx/Store: the rows as MvccTrx sees them, with the fields `__trx_xid_begin` and `__trx_xid_end`.
--   Trx/Mvcc: MvccTrxKit and MvccTrx of mvcc_trx.cpp. A failed ASSERT is the outcome `aborted`, also one of
--     the log handler on the ids. The deletion of a row in a rollback is that of table/heap_table_engine.cpp;
--     what the table's indexes answer is an argument. Ids are unbounded integers: the counter of
--     the code is an int32_t, and its overflow is not modelled.
--   Trx/Replay: MvccTrx::redo and MvccTrxLogReplayer of mvcc_trx_log.cpp, on decoded entries.
--   Trx/Isolation, Trx/Commit, Trx/Rollback and Trx/Anomalies hold the proofs.
-- A call of the table layer (`insert_record`, `delete_record`, `visit_record`) acts on the map of the
-- rows; what it answers on an insertion and what the log handler answers are arguments.
--
-- Clog models src/observer/storage/clog.
--   Clog/Entry: LogHeader and LogEntry of log_entry.h and log_entry.cpp, with the state that a move leaves.
--   Clog/Writer: LogFileWriter of log_file.cpp, and `writen` of src/common/io/io.cpp; the file is a list of what
--     was written, the pieces of entries that failed writes leave included. What the system's writes answer is
--     an argument. The last number of a file wraps as an int.
--   Clog/Buffer: LogEntryBuffer of log_buffer.cpp, one call at a time (the code holds its mutex);
--     Buffer/Round, Buffer/Order and Buffer/Bytes. The count `bytes_` is a signed integer.
--   Clog/Files: LogFileManager of log_file.cpp. A path is its file name, a list of characters; the
--     standard library's `from_chars` and `to_string` are arguments, and what a directory lists and
--     whether a file opens are too. The numbers themselves have no width.
--     Files/Spacing and Files/Names.
--   Clog/Reader: LogFileReader of log_file.cpp over a list of bytes. How a header is laid out in memory is
--     an argument; the loops have the file's length as fuel, as each round reads a header
--     (Reader/Fuel). Reader/Written is about a file that a writer made.
--
-- Bitmap models src/common/lang/bitmap.h and bitmap.cpp: a list of bytes and a size in bits; Bitmap/Bits
-- has the bits, Bitmap/Search the two searches.
--
-- LowerBound models src/common/lang/lower_bound.h, with positions for iterators and the comparison as an
-- argument. The fuel of its loop is the length of the range, as each round shortens it.
--
-- Pool models src/observer/storage/os/buffer/disk_buffer_pool.cpp.
--   Pool/Header: the header page of a file (BPFileHeader), `allocate_page`, `dispose_page`, their redo in
--     a recovery and `recover_page`. What the log handler, `get_this_page` and `allocate_frame` answer are
--     arguments (the type Answers); the numbers are not negative and have no width. MAX_PAGE_NUM is 8 times
--     the bytes of the bitmap. Header/Invariant, Header/Fresh and Header/Redo.
--   Pool/Frames: BPFrameManager with the pin counts of os/page/frame.cpp, and `allocate_frame`, over
--     the interface Replacement of a policy (the class ReplacementPolicy); Frames/Policies has the four
--     policies of Replacement as instances. A frame is known by its page, and frames without one are counted. What a
--     flush answers is an argument. The loop of `allocate_frame` has fuel; two rounds are enough, as a purge
--     leaves a free frame. Frames/Collect, Frames/Release and Frames/Purge are about any policy,
--     Frames/Coherent and Frames/Served about one with the laws Follows; Frames/Policies fills the laws for
--     LRU and FIFO.
--   Pool/Iterator: BufferPoolIterator; the fuel of a walk is the page count.
--
-- Record models src/observer/storage/record.
--   Record/Page: RowRecordPageHandler and RecordPageIterator of record_manager.cpp on one page. Records are
--     a map from slots to bytes beside the bitmap and the count of the header; the code holds the latch of the
--     page during an operation. What the log handler answers is ignored by the code, so the log only collects
--     the entries. The fuel of the iterator is the capacity, as each round goes on behind its slot.
--     Page/Counts, Page/Insert, Page/Remove and Page/Iterate.
--   Record/Log: the operations of a page with RecordLogHandler and the frame's LSN, and RecordLogReplayer,
--     of record_log.cpp. The entries are decoded and of one page; what the log handler answers is an argument.
--     Log/Perform and Log/Redo.
--   Record/File: RecordFileHandler over a map of pages and the set `free_pages_`, as a list in some order. What the buffer pool answers is an argument, with the empty
--     page that `init_empty_page` leaves. File/Place and File/Drop.
--
-- Index models the B+ tree of src/observer/storage/index/bplus_tree.cpp and bplus_tree.h.
--   Index/Key: a key is the attribute and the record id, compared by KeyComparator; the comparison of the
--     attribute's type is an argument, and IsLawful says that it is a total preorder.
--   Index/Items: the array of a node as a function, with recover_insert_items and recover_remove_items as the
--     moves of memory that they are; Index/Contents and Index/Order say what they do to the list of the items
--     and to the order of the keys.
--   Index/Leaf and Index/Internal: LeafIndexNodeHandler and InternalIndexNodeHandler (Search and Moves). The
--     logger's calls only append to a list in memory and always succeed.
--   Index/Tree: BplusTreeHandler over a map of pages: `find_leaf`, `insert_entry` (Tree/Insert) and
--     `delete_entry` (Tree/Delete). The pages that the buffer pool gives are a list, and the codes of its
--     failures are fields. The fuel of the descent and of the recursion to the root is more than the height;
--     Tree/Find proves that this is enough. Tree/Order has the order of a tree, Tree/Linked its parent links,
--     Tree/Change what a change of one leaf is for the tree, Tree/Entry and Tree/Drop insertion and deletion.
--     Tree/Split has the split of a leaf, Tree/Root, Tree/Grown and Tree/NewRoot the split of a root that is a
--     leaf. Index/Capacity has the layout of nodes, Index/Runs runs with splits, merges and redistributions.
--     The rollback of the mini transaction after a failure and the latches are left out.
--
-- Base holds what all share (tests on numbers, lists over native numbers, signed integers, the search of a
-- range), Rc the return codes of src/common/sys/rc.h, and the Tests modules runs and examples.
--
-- The parts meet as in the code: the policies of Replacement are the instances of the interface that Pool/Frames
-- takes, Bitmap carries the bits of Pool/Header and of Record/Page, Record/File works on the pages of Record/Page,
-- and the nodes of Index search with LowerBound.
--
-- Not modelled: the SQL layer, the layout and the scanners of record files, the PAX format (its operations
-- are not written in the repository), the scanner, the validation and the
-- log of the B+ tree, the double write buffer, the loading and the latches of
-- pages, the network, and everything that only reads or writes strings.
pub mod Base
pub mod Rc
pub mod Bitmap
pub mod Index
pub mod LowerBound
pub mod Pool
pub mod Record
pub mod Replacement
pub mod Trx
pub mod Clog
