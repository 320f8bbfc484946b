-- ===== src/Lib.antt =====
-- The moocbt block driver: it traces the writes of a block device, saves the original data of the blocks in a
-- cow file before they are overwritten, and serves the snapshot from it. A write is traced (Tracer,
-- Trace), its blocks are read and queued (Queue), a thread takes them (Threads) and stores them (Snap)
-- through the copy-on-write manager (Cow); the control interface sets up and changes the devices (Control).
--
-- A cow file has a header of 4096 bytes, an index that maps each block of the device to the place
-- of its saved data (0 when it has none), and a data area. The manager (src/cow_manager.c) keeps
-- the index in sections of which some are cached in memory, with the rest in the file.
--
-- Word, Flags, Bytes: 64-bit arithmetic with its wrap-around, the flag bits of src/moocbt.h, and
--   little-endian values and byte ranges of a file.
-- Kernel: what the driver calls outside the repository, as a record of functions, with the
--   documented behaviour that the theorems rely on (`IsKernel`). Kernel/Ram is an instance.
-- Cow/State: `struct cow_manager` and `struct cow_section` of src/cow_manager.h, and the monad of
--   the model: a result (`ok`, `err` for a negative errno, `oops` for an access through NULL or out
--   of range) beside the state that was reached.
-- Cow/Io: `file_io`, `file_truncate` and `file_allocate` of src/filesystem.c, and the opening and
--   closing of the file in src/cow_manager.c.
-- Cow/Sections: `__cow_free_section`, `__cow_alloc_section`, `__cow_load_section`,
--   `__cow_write_section`, `__cow_sync_and_free_sections`.
-- Cow/Cleanup: `__cow_cleanup_mappings` and its search for the median usage.
-- Cow/Header: `struct cow_header` of src/moocbt.h, `__cow_write_header`, `__cow_open_header`. The C code
--   copies the struct as it lies in memory; `encode` and `decode` are its bytes (x86-64, no padding).
-- Cow/Mapping: `cow_read_mapping`, `__cow_write_mapping`, `__cow_write_data`, `cow_write_current`,
--   `cow_read_data`.
-- Cow/Life: `cow_init`, `cow_reload`, `cow_sync_and_close`, `cow_sync_and_free`, `cow_reopen`,
--   `cow_free_members`, `cow_truncate_to_index`, `cow_modify_cache_size`.
-- Cow/Inv: the invariant of the manager and what a call may change. Cow/Snapshot: the map from
--   blocks to saved data, which forgets where in the file the data lies.
-- Snap: `snap_handle_write_bio` and `inc_handle_sset` of src/snap_handle.c. Snap/Read:
--   `snap_read_bio_get_mode` and `snap_handle_read_bio`, with the read of the base device as a
--   parameter.
-- Queue: `struct bio_list` and `struct bio_queue` as `bi_next` pointers (src/bio_list.c,
--   src/bio_queue.c). The queue of sector sets (src/sset_list.c, src/sset_queue.c) is the same code.
-- Threads: `snap_cow_thread` of src/module_threads.c, over an interface for the handlers of
--   src/snap_handle.c: its rounds, and the bios and failures that come between them.
-- Trace: `snap_trace_bio` of src/tracer.c with `bio_make_read_clone` and `__on_bio_read_complete` of
--   src/bio_helper.c and the reference count of src/tracing_params.c, as steps of the submitter and
--   of completions in any order. Trace/Marks: `inc_trace_bio` and `bio_needs_cow`.
-- Control: the handlers of src/ioctl_handlers.c on the array of devices, with `tracer_setup_active_snap`,
--   `__tracer_setup_unverified` and `tracer_destroy` of src/tracer.c; Control/Transition: the
--   transitions between the modes; Control/Mount: those on a mount or unmount, in
--   src/bdev_state_handler.c and src/tracer.c, whose loops over the range of minors in use are loops
--   over the array here. A device is its flags, which of its resources are held, and whether it was freed.
-- Refs: the table of src/callback_refs.c, its buckets as one list.
-- UpdateImg: `verify_files`, `copy_block` and the merge in `main` of utils/update-img.c, with any `errno`
--   left by a short transfer.
-- Tracer: the fail code and the tests on bios of src/tracer_helper.c and src/snap_ops.c, and the range
--   of minors and the choice of the device for a bio of src/tracer.c.
--
-- Bounds: the offsets of a valid manager are below 2 ^ 62, a device being smaller than that, so that
-- no offset wraps. The loop of `__cow_cleanup_mappings` runs on fuel of one more than the initial
-- granularity, which each round halves; the loops over sections and blocks are structural. The loops over
-- the bytes of a segment run on the length of the segment as fuel, each round copying at least one
-- byte; without fuel they fault, which the theorems exclude.
--
-- The search of the queue runs on fuel of more than the number of queued bios, the thread on a round for
-- each bio and one more, and the loop of `snap_trace_bio` on a round for each page and one more.
--
-- Not modelled: hooking of kernel functions, copies of parameters from user space, logging, locking,
-- the device pointer `dev` (only passed to the file functions), the string handling of paths, the
-- extents of the file, and the variants for kernel versions.
pub mod Common
pub mod Word
pub mod Flags
pub mod Bytes
pub mod Kernel
pub mod Cow
pub mod Queue
pub mod Snap
pub mod Threads
pub mod Trace
pub mod Control
pub mod Refs
pub mod UpdateImg
pub mod Tracer
