-- ===== src/Lib.antt =====
-- Verification of moonclip, a checkpoint store for training runs (the Rust crate under src/).
--
-- A save turns each tensor into bytes, takes a delta against the newest full snapshot where one
-- pays, reorders bytes by plane and compresses them; the ranks' packs go through the storage
-- interface, the manifest names them, and retention evicts old snapshots. Saves run on a
-- background thread, beside readers and merges. The files model the parts so:
--
--   Prelude      shared helpers: tests, lists, chunks, bits and words, searches, membership
--   Error        src/error.rs: the errors, and results with a panic as a value
--   Shuffle      src/shuffle.rs: shuffle and unshuffle
--   Delta        src/delta.rs: compute_delta, apply_delta, pays_off, delta_density
--   Compression  src/compression.rs: compress, frame_layout, decompress, decompress_prefix
--   Pack         src/pack.rs: encode_header and decode_header
--   Storage      src/storage.rs: the StorageBackend trait as an interface with laws, and
--                LocalStorage as an implementation over a disk of files
--   Manifest     src/manifest.rs: the data, and the queries of the save path and of retention
--   Retention    src/coordinator/mod.rs: apply_retention and the removals
--   Pins         src/coordinator/mod.rs: the pins file, read_pins and write_pins, and in Set
--                set_pinned
--   InFlight     src/inflight.rs: pins and claims, with every interleaving of threads
--   Saver        src/coordinator/saver.rs: submit, flush, shutdown and the worker; in Wakeups the
--                condition variable
--   Cast         src/cast.rs: float32 to and from bfloat16 and float16, and to float8
--     Glob       glob_match, beside a matcher by structural recursion
--     Policy     DType and DTypePolicy
--     Convert    cast_tensor, uncast_tensor and the conversions of whole tensors
--   Tensor       src/tensor.rs: process_tensor, dedup_plan and the base cache; in Load
--                load_tensor and what it calls
--   ManifestIo   src/manifest_io.rs: persist and load, and read_ranks
--   Merger       src/merger.rs: do_stride_merge and unlink_snapshots; in Full do_full_merge, in
--                Read what it reads of a tensor; PendingDeletes of src/remote_sync.rs
--   Loading      src/coordinator/mod.rs: load_in_pool; in Prefetch the base that it reads once
--   Recovery     src/coordinator/recovery.rs: recover_or_reclaim_orphans and load_manifest; in Reachable
--                files_of and snapshot_is_reachable
--
-- Numbers are natural numbers; the wrap-around of a machine word is written out where the source
-- can reach it. Bytes are numbers below 256, and a theorem says so where it matters. The parallel
-- loops of the source write disjoint chunks, and are modelled as the concatenation of the chunks.
--
-- Fuel: chunking takes one unit for each element, the frame layout one for each byte, since a
-- frame has a byte at least; retention takes one for each snapshot in either loop, and each round
-- removes one; the normalization of a float16 subnormal takes ten, its number of fraction bits. A
-- glob match takes (n + 1) * (p + n + 1) for a name of n and a pattern of p characters, since each
-- round reads a character or moves the place it returns to; decompress_prefix takes one unit for each
-- byte wanted; a chain of aliases is followed eight times, as the source follows it.
--
-- The zstd library is a parameter with the laws it documents of a frame, and serde_json one with the
-- round trip of what it writes. A UUID, a timestamp and an f32 are opaque numbers. The hash of
-- src/hash.rs, a call of xxh3, is a function; a theorem says where it relies on two contents having
-- two hashes. The float arithmetic of the hardware, to_lowercase, the text of a UUID and of a number
-- and the streaming decoder are parameters without laws, but that a decoder does not write past its
-- buffer where a theorem says so. So are the listing of a storage, the reading of a pack's descriptor
-- and the parsing of a UUID.
--
-- A full merge looks at the manifest twice, and its model takes the two manifests; the model of a
-- load takes one manifest for all its looks. The waits of an unlink are given by the states of the
-- registry that they wake up in. A directory that is removed once it is empty is no part of the disk.
--
-- A write to the local disk goes through its steps in order, each of which the filesystem may refuse,
-- and a file may be unreadable; a crash between two steps is not modelled. The threads around the
-- saver are steps of the lock, the channel and the condition variable; that a step which can be taken
-- is taken at some time is left to the scheduler.
--
-- Not modelled: the merger's thread and deadlines (src/merger.rs); the save flow, the loads of some
-- tensors and the remote fetches (src/coordinator/mod.rs); the write of the manifest that ends a
-- retention pass; the copies of remote sync and S3, hashing, profiling, the thread pool and the Python
-- bindings.
pub mod Prelude
pub mod Shuffle
pub mod Error
pub mod Loading
pub mod Manifest
pub mod Delta
pub mod Compression
pub mod Pack
pub mod Storage
pub mod Tensor
pub mod Retention
pub mod Pins
pub mod InFlight
pub mod Saver
pub mod ManifestIo
pub mod Merger
pub mod Recovery
pub mod Cast
