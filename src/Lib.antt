-- ===== src/Lib.antt =====
-- TurboHash: an in-memory hash table for concurrent threads (src/turbo/turbo_hash.h).
--
-- A table is a directory of buckets, chosen by the upper half of a key's hash. A bucket is a power
-- of two of cells of 128 bytes. A cell has a version word (a bitmap of occupied slots, a bitmap of
-- deleted slots, a sequence number), a tag byte per slot, and seven slots, of which one stays spare,
-- so that an update writes the new record beside the old one and then publishes both changes with
-- one store of the version. A key is searched in the cells from its home cell on, at most 15, up to
-- the first cell that is not full.
--
-- Files:
--   Common           names of the libraries, Boolean tests, lists, bits of numbers
--   BitSet           util::BitSet and the built-ins it calls; isPowerOfTwo
--   Hasher           util::Hasher (MurmurHash64A, hash_int), PartialHash
--   Cell             CellMeta128; Cell.Live, Cell.Change and Cell.Spare say what its bitmaps mean
--   SlotFormat       the interface of SlotRecord, H1Convert, H1ToHash, SlotKeyEqual
--   Bytes            a memory of bytes: numbers in little-endian order, memcpy
--   Slice            util::Slice: compare and the operators; Slice.Order has the order of bytes
--   Record           Record1 and Record2: their lengths, encoders and decoders for numbers and
--                    strings; Record.Layout says what it means that a record stores its values
--   Format           the instances of SlotFormat: Format.Flat is SlotRecord<T1, true, true>,
--                    Format.Text the three with strings, Format.Entry the record of an entry
--   Probe            ProbeWithinBucket
--   Bucket           findSlot, findSlotForInsert, insertToSlotAndGC, deleteSlot, one turn of
--                    insertSlot; Bucket.Valid has the invariant and the abstract content of a
--                    bucket, Bucket.Search the walk that all searches share,
--                    Bucket.RoundTrip a search after an insertion
--   Reader           findSlot on one cell while threads insert into the cell and delete from it,
--                    as a step relation of single loads and stores, with the check of the version;
--                    Reader.Stable and Reader.Safety say what a read may rely on, Reader.Check what
--                    the check compares, Reader.Alone is about a read that no writer disturbs,
--                    Reader.Torn and Reader.Missed about overlaps that the check lets through
--   Pinned           what insertSlot decides under the lock with PIN_KEY_TO_THREAD; Pinned.Settle is
--                    about every case of it, Pinned.Spare about a cell that has become full
--   Rehash           BucketIterator, findNextSlotInRehash, moveSlot, MinorRehash; Rehash.Pack has the
--                    invariant of its loop
--   Table            the directory, Find, Delete and Put; Table.Lookup and Table.Put have the table
--                    as a map, Table.Grow the loop of insertSlot round MinorRehash, Table.Create the
--                    constructor, Table.Parallel the loops that divide the buckets among threads
--                    (MinorReHashAll, GCAll, IterateAllCallback), which Table.Workers and
--                    Table.RehashAll are about
--   Epoche           DeletionList and Epoche (src/turbo/turbo_epoche.h); Epoche.Sweep, Epoche.Mark and
--                    Epoche.Exit are about the list of one thread, Epoche.System has the threads as
--                    a step relation, Epoche.Invariant and Epoche.Safety what holds in each state
--   BitLock          turbo_bit_spin_lock, try_lock, unlock and turbo_lockbusy as a step relation;
--                    BitLock.Mutex is about threads on one bit, BitLock.TwoBits about two bits
--   BucketMeta       the word of a bucket: BucketMeta's fields
--   Pmem             the persistent table (src/turbo/turbo_hash_pmem.h): Pmem.Flush is
--                    TURBO_PMEM_CLFLUSH, Pmem.Meta is BucketMetaPmem under crashes and Recover,
--                    Pmem.Lock the locks by test-and-set, Pmem.Cell is CellMeta256V2, Pmem.Line the
--                    memory of cache lines and its crashes, Pmem.Insert the stores and flushes of
--                    insertToSlotAndGC and deleteSlot, with those of SlotRecord::Store
--   Random           util::Random (src/util/random.h), the generator of the benchmarks
--   Tests            runs of the definitions, and the theorems at concrete buckets
--
-- Memory is explicit: an array is a function from its index, an operation returns the state after
-- it and the records that it hands to Epoche::markNodeForDeletion. A record that an entry points to
-- is a value of the type `E` of a SlotFormat. Fields of w bits are numbers below 2 ^ w, and
-- arithmetic on them has the remainder written out. The table's key, value, hash and comparison are
-- the parameters and laws of SlotFormat.
--
-- The loops of a search run on the number of probes left, which is the code's own limit of 15; a
-- loop over a bitset runs on 32 rounds, as many as its word has bits, and the iterator over a bucket
-- on 32 rounds for each cell. The loop of findNextSlotInRehash has at most 16 rounds. `exit (1)` is
-- the result `none`, or the case `exits` of Pinned. Buckets of up to 2 ^ 15 cells (kCellCountLimit) are covered.
-- insertSlot runs on 17 turns: a turn that does not store doubles the bucket or exits, and a bucket
-- has at most 2 ^ 15 cells.
--
-- In Bucket and Table an operation runs under the bucket lock, and no version changes while a search
-- runs; a search while versions change is the step relation of Reader, for one cell. Writers of a cell
-- exclude each other by the lock, so that Reader has at most one insertion under way.
--
-- In Pmem.Line a crash leaves of each cache line what some number of its stores made of it, in their
-- order and at least those before its last flush; Pmem.Meta lets each field survive for itself.
--
-- Not modelled: a search over several cells, or during a rehash, while versions change; the
-- version retry of findSlotForInsert; the rehash lock of PIN_KEY_TO_THREAD; allocation and its
-- failures; the counters of capacity and size; the destructor; of the persistent table
-- (src/turbo/turbo_hash_pmem.h) the searches, the rehash and the directory; its variant for PMDK
-- (src/turbo/turbo_hash_pmem_pmdk.h); printing. Threads are modelled where locks, epochs and reads
-- of a cell are: their single accesses to shared memory interleave, in the order of each thread.
-- In Epoche.System each thread has besides a store buffer, as on x86, since the store of enterEpoche
-- has no fence: the epoch becomes visible to other threads in a later step. Of IterateAllCallback
-- the model has the calls of each thread; the order between threads is any interleaving
-- (Common.Shuffle). A rehash of MinorReHashAll is one step.
pub mod Common
pub mod BitSet
pub mod Hasher
pub mod Cell
pub mod SlotFormat
pub mod Probe
pub mod Bucket
pub mod Reader
pub mod Pinned
pub mod Rehash
pub mod Table
pub mod Epoche
pub mod Bytes
pub mod Record
pub mod Random
pub mod Slice
pub mod BitLock
pub mod BucketMeta
pub mod Pmem
pub mod Format
mod Tests
