-- ===== src/Lib.antt =====
-- GRMDB, a relational database server in C++. The storage layer is modelled, with the B+
-- tree index, the log, the table locks, transactions with their rollback, and the executors that scan,
-- join, project, update and delete. Paths are from the repository's root.
--
-- The parts and the files that model them:
--   * Base: numbers, signed integers, lists, association lists, and case splits.
--   * Defs: `Rid` of src/defs.h.
--   * Record/Bitmap: the slot bitmap of a record page, src/record/bitmap.h. Bits: set and reset
--     against is_set. Scan: next_bit and first_bit.
--   * Record/Page: the page of a record file, src/record/rm_defs.h, and what the operations of
--     src/record/rm_file_handle.cpp do to a page that they have fetched. Slots: where records go,
--     with the count of Count.
--   * Record/File: RmFileHandle of src/record/rm_file_handle.h and .cpp, with redo and undo. Contents:
--     the records that the file holds; Contents/Insert: where an insertion stores one. Scan: RmScan
--     of src/record/rm_scan.h and .cpp; Order: the order in which it goes; Positions, Walk and Listed:
--     all that it goes through. Room: the pages that have room.
--   * Replacer: src/replacer/lru_replacer.cpp. A list iterator is the identity of a node. Laws: the
--     list of frames that the replacer stands for.
--   * Storage/Disk: pages, page numbers and the log file of src/storage/disk_manager.cpp.
--     A file holds its pages at their offsets. Disk/Offset: the offset of a page, and `lseek`.
--     Disk/Blocks: what a write leaves of the pages that lie in their file.
--   * Storage/BufferPool: src/storage/buffer_pool_manager.h and .cpp over Disk, Replacer and the log
--     manager. Each operation runs under the pool's latch and is one function of the pool's state.
--     Invariant: what the page table, the frames, the free list and the replacer agree on. Coherent:
--     the file of pages that the pool stands for. Init, Fetch, New, Release, Delete and Contents:
--     what the operations keep and return. Wal: the log flush before a page is replaced.
--   * Recovery/LogManager: src/recovery/log_manager.cpp. The log buffer is the bytes up to its
--     offset. Append: the log on disk and in the buffer as one.
--   * Recovery/LogRecord: the records of src/recovery/log_manager.h and their bytes, with the offsets
--     of src/recovery/log_defs.h. RoundTrip: reading back what was written.
--   * Recovery/LogRecovery: src/recovery/log_recovery.cpp. The log is its records, each read at its
--     offset; the files are those of the tables. The loop of undo is on fuel, one unit for a record.
--     Analyze: the table of unfinished transactions. Redo: redo twice. Undo: the loop ends.
--   * Transaction/Defs, Transaction/LockManager: src/transaction/txn_defs.h and
--     src/transaction/concurrency. A call on a request queue ends by a result, an exception or a
--     wait. Intention and Exclusive: table locks. Records: shared locks of a record. Release: how
--     `unlock` leaves a queue, with Unlocked on what is left. WaitDie and Waits: who waits for whom.
--     Compatible and Respects: what a lock excludes.
--   * Transaction/Manager: src/transaction/transaction_manager.cpp and the WriteRecord of txn_defs.h. The
--     trees of the indexes and the lock manager stand behind their operations (Services); the write
--     set is listed from its back. Logged: what a write set says of the records. Rollback, Abort: the
--     rollback.
--   * Execution: src/common/common.h and src/execution. Value: values, conditions and their comparison;
--     Value/Swap: a comparison with its sides changed. Executor: the operations of an executor, and
--     the loop of `select_from` of execution_manager.cpp. SeqScan: executor_seq_scan.h over a record
--     file; Found: what it yields. Join: executor_nestedloop_join.h over any two executors; Turn and
--     Product: what it yields; Restart: a join that is begun again, or is the input of a join.
--     Values: execution_values.h. Projection: executor_projection.h; Fields,
--     Selected and Columns: what it yields. Delete and Update: executor_delete.h and executor_update.h, over what
--     Change says of a session, its exceptions and its locks; Change/Targets: the records that are to
--     be changed; Logged, of each: what they keep.
--   * System/Meta: the columns, indexes and tables of src/system/sm_meta.h.
--   * Index/Search: the binary search of src/index/ix_index_handle.cpp against the search key by key.
--     Index/Key: `ix_compare` of src/index/ix_index_handle.h; Key/Order: what the tree needs of it.
--   * Index/Node: IxNodeHandle of the same files. Sorted: the searches of a node. Insert and Erase:
--     what a node holds after `insert`, `erase_pair` and `remove`.
--   * Index/Tree: IxIndexHandle, with src/index/ix_defs.h and ix_scan.h and .cpp. Find, Grow and
--     Shrink: find_leaf_page, get_value, insert_entry and delete_entry with what they call. Iid:
--     positions in the leaves and the scan over them. Ordered: trees in order, the child that
--     internal_lookup chooses (Child), the leaf that is found (Lookup), get_value (Value). Split,
--     Move, Join and Root: what split, redistribute, coalesce and a new root make of nodes.
--   * Tests: runs on concrete inputs.
--
-- The content of a page, the zeroed page and the LSN that a page carries are parameters of the
-- buffer pool; the metadata of an index is a parameter of the lock queues. `next_bit` is written on
-- the rounds that are left, max_n - i, which are all that its loop can make. Everything else that
-- repeats is recursion on a list. An `int` is an integer without bounds, except where bytes or file
-- offsets are made of it: there the wrap-around is written out, so that page numbers from 2^19 on have
-- no offset or that of another page, for reads and writes alike. A read of a page that is not in the
-- file, or without an offset, throws. A write to disk is taken to succeed, and the exception of a
-- failed `lseek` in write_page is left out, the disk staying as it was; what is said of the content
-- of pages is said of those with a number below 2^19.
--
-- A B+ tree and a record file are their pages, each with what is on it, a pin count and a dirty
-- flag. The pool below them is taken to find a frame for each page. The key type and its comparison
-- are parameters, of which a proof asks that the comparison is a total order, and so is the key of
-- zero bytes. The arrays of a node go on past `num_key` with what was left there, which some of the
-- code reads. A descent and the climb of a split or a merge are on fuel, one unit for a level of the
-- tree; the loops of the executors are on fuel, one unit for a turn, and more than there are
-- records, or pairs of them, is enough. A run that ends in an exception, an assertion or a read in
-- front of an array has no result.
--
-- Not modelled: creating and opening record files (rm_manager.h), of the B+ tree the overloads for keys
-- given as values and the file of the index (ix_manager.h), building the indexes again
-- after recovery's undo, exclusive record and gap locks, granting locks to
-- those that wait and what a call does after its wait, the system catalog, analysis and planning of
-- queries, of their execution sorting, sort-merge join, aggregation, index scan and
-- insert, the parser, and the server.
pub mod Base
pub mod Defs
pub mod Record
pub mod Replacer
pub mod Storage
pub mod Recovery
pub mod Transaction
pub mod Index
pub mod System
pub mod Execution
pub mod Tests
