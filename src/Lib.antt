-- ===== src/Lib.antt =====
-- A model of the core of this allocator: the bitmaps, the arenas and their purging, the page map, the
-- page queues, the links of free blocks, the pages, the thread heaps with their frees and retired
-- pages, the metadata allocator, the options and the memory of the operating system.
--
-- Parts and files.
--   Word, Word/*: 64-bit words as natural numbers below 2 ^ 64, with shifts, complement, wrapping
--     sums, rotations and digit counts, and the bits of a word. This is what the code uses of
--     `usize` and `u64`.
--   Bitmap (src/bitmap.rs). Bitmap/Field has the `bf_` functions on one atomic word. A run takes a
--     list of attempts: for each compare-exchange whether it succeeds, and which word it sees if it
--     fails; when the list is used up the exchange succeeds. So each theorem on a field covers every
--     interference of other threads with that word. Bitmap/Chunk has `BChunk`, a list of eight words;
--     Bitmap/Map has `Bitmap`, a chunkmap and a list of chunks; Bitmap/Wide has its operations on
--     ranges that cross chunks, the search for any number of bits and the search with a claim. Chunk
--     and bitmap operations run alone: their fields see no attempt of another thread. `none` stands
--     for an index panic.
--   Layout (src/layout.rs): rounding to an alignment, the size and the alignment of a request.
--   PageMap (src/page_map.rs): the two-level table from slices to pages. Which of its tables the
--     system grants is a parameter.
--   Options (src/options.rs): the options, their values from the environment, and the arena purge
--     delay. Options/Integers has 64-bit signed integers. The environment is a parameter.
--   Os (src/os.rs): aligned allocation with the calls that map and unmap, commit, and the decision to
--     purge. The primitives of the platform, the clock and the options it reads are the fields of a
--     `System`, so every theorem holds for any answers.
--   Arena (src/arena.rs): an arena with its bitmaps of free, committed, scheduled and dirty slices.
--     Arena/Create makes one, Arena/Alloc and Arena/Slices hand slices out and take them back over
--     Bitmap, Arena/Purge gives memory back, Arena/Abandon keeps abandoned pages:
--     Arena/Abandon/Registry says which slices are registered in which class. Os commits.
--   Subproc (src/subproc.rs): the arenas of the process, as a client of the theorems on arenas.
--   Sync (src/sync.rs): the write-once cell and the spin lock as step relations of any number of
--     threads, with the accesses in one order. Which thread won, and how often an initializer ran,
--     are kept beside the state.
--   PageQueue (src/page_queue.rs). A page is its address, 0 is null, and the `next` and `prev` cells
--     of all pages are two functions on addresses.
--   FreeList (src/free_list.rs, and the rotations of src/bits.rs). The first word of every block is a
--     function on addresses. `hardened` is the build with the `secure` or `debug` feature.
--   Page (src/page.rs). Page/State says which list each block of a page is on: `free`, `local_free`,
--     the stack in `xthread_free`, or none of them, when it is live. A page uses FreeList for its
--     links and Layout for its start. The operations are those of the owner, or of one other thread,
--     with no push in between, so each compare-exchange succeeds the first time. Page/Flags has the
--     owner and the flags in `xthread_id`, Page/Partly the collection below the top of the stack.
--   SizeClass (src/bits.rs, `bin`): the size class of a number of bytes.
--   Heap (src/heap.rs). Heap has the table of block sizes, `good_size` and the slices of a page.
--     Heap/Blocks has aligned allocation over any allocator of blocks, and the way back from a
--     pointer to its block. Heap/Theap has the state that a release goes through, a `World`: pages,
--     queues, memory, page map, process and thread heaps by address. It models `retire_page`,
--     `collect_retired` and `release_page_slices` as clients of PageQueue, PageMap, Arena and
--     Subproc. Heap/Free has `free` from any thread, over the free of Page and the registry of Arena.
--     Heap/Theaps has the list of the thread heaps of a heap, over the theorems of PageQueue.
--   Meta (src/arena_meta.rs): the metadata allocator over Bitmap. The memory for a new region is a
--     parameter, and so is the size of a region's header.
--
-- Fuel. Loops over a range of bits have one round for each bit and one more, as each round takes a
-- bit or more. A scan of a field has one round more than the word has bits, a search of a bitmap one
-- for each chunk, and a search for a run of more than 512 bits one for each start and one more. A
-- purge has one round for each slice and one more, and a run that it extends at most 64. A walk along
-- a free list has one round more than the capacity of the page; a well-formed page has no longer
-- list. The sweep of `collect_retired` has one round for each bin of its range. That this is enough is
-- part of the theorems. The loop that follows the free of a block of an abandoned page has two
-- rounds, as no other thread pushes in between; if that block was the last live one, it ends in the
-- first.
--
-- Not modelled. The allocation of a block by a heap (`alloc_generic`, the fresh and the huge pages),
-- and the reclaiming, abandoning and destruction of pages and heaps with their reference count: of
-- src/heap.rs they are left. `Arena::destroy`; the checks of a hardened build for invalid frees;
-- initialization (src/init.rs); statistics; src/prim, which calls the operating system; src/api,
-- which is trait glue. The contents of memory are modelled only as far as the links of free blocks
-- and the zeroing of metadata. The size of a page's header is a parameter of `init`, as the compiler
-- lays it out. Debug assertions are not run.
mod Prelude
pub mod Word
pub mod Bitmap
pub mod Heap
pub mod Layout
pub mod Meta
pub mod PageMap
pub mod Options
pub mod Os
pub mod Arena
pub mod Sync
pub mod Subproc
pub mod PageQueue
pub mod FreeList
pub mod Page
pub mod SizeClass
