-- ===== src/Lib.antt =====
-- The C and C++ code of this repository: the bucket allocator of kmalloc/original/kmalloc.c, the pieces
-- of a Go runtime in rgoffi/go/gocruntime, and the string search of
-- eset/find_string_in_files/src/main.cpp. They share no state; each has its own modules here.
--
-- Common: Boolean tests on numbers, fallible steps, powers of two, and lists in which each number
--   stands once.
-- Memory: one byte at each address, pointers of eight bytes with the lowest first, and 64-bit words
--   with their wrap-around. What a store changes and what a load then reads is in Memory/Laws.
-- Kmalloc: kmalloc/original/kmalloc.c without RCHECK and DEBUG, for x86-64. The record Heap
--   holds the static variables nextf, pagesz and pagebucket with the memory; `setup`, `choose_bucket`
--   and `obtain_block` are the three parts of the function kmalloc, `extend` and `carve` those of
--   morecore, and Kmalloc/Resize has kcalloc, krealloc and findbucket. sbrk and getpagesize are the
--   record Os, and IsOs says what is documented of sbrk: it moves the break up, or returns -1 and
--   leaves it. An option is `none` where the behaviour is undefined or fuel has run out.
--   Kmalloc/Layout has the invariant: a ghost map tells for each byte which free block or block in use
--   it belongs to, the free lists are chains of free blocks that lead to NULL, and the header of a
--   block in use carries its magic number and its bucket.
--   Kmalloc/Buckets treats the sizes, Setup and First the first call, Morecore and Carve new memory,
--   Take and Serve a request, Free and Reuse the release, Unready the state after a failed first
--   call, and Run a program that calls kmalloc, kcalloc, krealloc and kfree and writes into its
--   blocks, in any order; Run/Start has the heaps where it may begin. All this is the build without
--   MSTATS. Stats has the other one: the functions that count in nmalloc, named stats_kmalloc and so on,
--   with mstats; Stats/Program has the steps of Run for it, Stats/Start where they begin, and
--   Stats/Tally the list of the pointers that are held, as ghost state. Test has the program of
--   kmalloc/original/tests/main.c.
-- Fixalloc: rgoffi/go/gocruntime/fixalloc.c and fixalloc.h. The record GoRuntime holds the two
--   functions of the Go runtime that are called; `none` is a throw. Fixalloc/Run has a program that
--   calls alloc and dealloc and writes into its blocks, in any order, with ghost state: Run/Owners tells
--   whose each byte is, and Run/Counts lists what is held. Test has the function test.
-- Atomic: rgoffi/go/gocruntime/atomic.c over the routines of atomic_amd64.s and atomic_amd64.c, one
--   function each. Every routine is one access, locked where it writes, and so one step. Register
--   compares them with a register of their width. Routines has those that atomic.c does not call.
-- Goruntime: write_memory and read_memory of rgoffi/go/gocruntime/goruntime.c, and its test_atomicity
--   with the two threads as a step relation over all orders of their lines and calls, and main, whose two
--   variables lie in memory at addresses that are arguments. What memory Go hands out is a parameter.
-- LockRank, LockRankOff and Runtime2: the lock ranks of rgoffi/go/gocruntime/lockrank.h, the locks of
--   lockrank_off.c, and the goroutine status of runtime2.h.
-- FindString: eset/find_string_in_files/src/main.cpp, one function for each of its functions. Strings
--   has std::string as the list of its bytes, with find and substr. FindString itself has the search of
--   a text, Files that of a small file, Format what is written, and Main the program, over a record
--   FileSystem of what the library tells about paths. In Large a thread of a large file reads in one
--   step and writes in another, each under its mutex, and the loop that starts the threads is a third
--   party. The steps come in any order, and a schedule of turns runs them; the scheduler is a
--   parameter of the program, like the library's streams. An option is `none` where the behaviour is
--   undefined, or where the turns do not bring the threads to their end. Matches, Occurrences and
--   Context treat what is found.
-- Examples: the theorems at concrete machines and heaps.
--
-- Bounds. The loops of kmalloc run on 33 rounds of fuel: an unsigned number doubles to zero within
-- them, and each loop ends by then. The search of findbucket and the loops of mstats take their fuel as
-- an argument, more than the blocks they may look at in a list, since a list may be as long as the
-- memory allows.
-- `1 << 31` on an int, which morecore and krealloc may compute, is undefined in C; the model has the
-- negative number that compilers make of it, which morecore tests for. In mstats it is undefined.
-- The page size is that of a bucket, a power of two from 8 to 2 ^ 30. The memory above the break is
-- zero, as the system hands it out: the end of the chain that morecore makes is a link nobody wrote.
-- The loop over the matches has two rounds more than the text has bytes, since each match begins at
-- another byte, or at the end; a text of 2 ^ 31 - 1 bytes or more could overflow its position, and files
-- that are read whole are shorter than 2 ^ 29.
--
-- Not modelled: botch and the range checks of kmalloc, whose builds do not compile;
-- rgoffi/go/gocruntime/string.c, which is unfinished and does not compile; the
-- structures of runtime2.h and type.h, which nothing in the repository works on; the Rust and Go parts
-- of the repository. Of the string search: what the library's exceptions do to it, and the sleep.
pub mod Atomic
pub mod Common
pub mod Examples
pub mod FindString
pub mod Fixalloc
pub mod Goruntime
pub mod Kmalloc
pub mod LockRank
pub mod LockRankOff
pub mod Memory
pub mod Runtime2
