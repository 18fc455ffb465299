-- ===== src/Lib.antt =====
-- Verification of memtest86+, a stand-alone memory tester.
--
-- At start the program reads the memory map of the BIOS or the boot loader and makes of it the map of
-- usable memory (system/pmem.c), takes two small heaps from that (system/heap.c), and then tests the
-- segments of the map window by window. In a parallel test each segment is divided among the CPUs
-- (tests/test_helper.c). Faulty words are reported, and collected as patterns for the BadRAM extension
-- of Linux, as address ranges or as pages (app/badram.c).
--
-- The model is of the 64-bit x86 build. A word (`uint64_t`, `uintptr_t`, `size_t`, `testword_t`) is a
-- native number, and every operation that can wrap has its wrap-around written out. Arrays are lists
-- with an index; a loop is a function of its own, over the rounds that are left.
--
-- The files, with the code that each is about:
-- - Base: shared names; Base/Bits and Base/Align have the laws of the bit operations.
-- - Config: the enumerations of app/config.h.
-- - Badram: app/badram.c. `Table` is the array `patterns` with `num_patterns`; `insert` is
--   `badram_insert`, `init` is `badram_init`, and each static function has its own name. An access out
--   of bounds would be a result `none`. Below it, Combine and Cost are about `combine`, `addresses` and
--   `combi_cost`; Arrays is about the loops that move entries; Cover, Cheapest, Insert and Report lead
--   from there to the whole table.
-- - Pmem: system/pmem.c. `PmMap` is `pm_map`, `pm_map_size` and `num_pm_pages`. Pmem/Map has the data,
--   Pmem/Sanitize is `sanitize_e820_map`, where an entry is named by its index instead of a pointer; its
--   sort is given the square of the number of change points, and one more, as the bound of its rounds.
-- - Heap: system/heap.c. `Memory` is the map and the two heaps; a segment of -1 is `none`. The addresses
--   of the program, which the linker and the loader set, are arguments.
-- - Chunk: the rounding functions of tests/test_helper.h and `calculate_chunk` of tests/test_helper.c,
--   and the generator `prsg`, with the global variables of app/test.h that the former reads in the record `Cpus`.
-- - Vm: system/x86/vmem.c. `map_window` returns the new value of `mapped_window` with its result, and
--   the other functions take that value as an argument; the page tables are left out.
-- - Window: app/main.c, from the load addresses to `test_all_windows`, and
--   `smp_narrow_to_proximity_domain` of system/smp.c. Window/Segments and Window/Numa are about
--   `setup_vm_map` with NUMA off and on, Window/Sequence about the loop over the windows, Window/Load
--   about `set_load_addr`. The result of `test_all_windows` is the list of the maps that `run_test` is
--   called for; its fuel counts windows, and a window is 1 GB. The loop over the parts of a segment has
--   129 rounds as fuel, for the 128 entries of `vm_map`.
-- - CellTests: the loops that the tests of tests/*.c share, over the words of each range in spans, on a
--   machine whose cells answer a read by a function of the address and of the value written last.
--   CellTests/Loops, Ranges, Pass, Cells and Passes are about these loops; CellTests/Fixed is
--   tests/mov_inv_fixed.c, Fade is tests/bit_fade.c, OwnAddr is tests/own_addr.c, Random is
--   tests/mov_inv_random.c and Walk is tests/mov_inv_walk1.c. `data_error` is the list of reports, and
--   `do_tick` a counter with the flag `bail`, so that the early returns are modelled. The rounds given to
--   a loop are the number of its words, or of its spans.
-- - Master: `select_next_master` of app/main.c; each CPU of the ring is looked at once, so its fuel is the
--   number of CPUs.
-- - Control: the loop of `main` in app/main.c as CPU 0 runs it. `main_step` is its body, with the call of
--   `test_all_windows` as an event; Control/Pass has the runs of the loop as a relation. What lies behind
--   the end of `test_sequence`, which the loop reads, is a field of `Control`.
-- - Errors: app/error.c. `common_err` returns the new state, with the table of Badram in it, and whether the
--   CPU stays in the loop that shows a failure. Errors/Summary and Errors/Collect are about runs that go on
--   after an error, Errors/Stop about those that do not.
-- - Spinlock: lib/spinlock.h, as a relation between the states of any number of CPUs that take their steps
--   one at a time and in any order.
-- - Barrier: `barrier_reset` and `barrier_spin_wait` of lib/barrier.c, as a relation between states in which
--   each access of a CPU to the shared memory is a step. Barrier/Round has the rounds and what every CPU
--   does in them, Barrier/Arrival and Barrier/Release the steps into and out of the wait, and Barrier/Passing
--   and Barrier/Waking what follows for the users of the barrier.
-- - Fat: system/fat32.c. `Fs` is `fat32_fs_t`, and an operation takes the sectors of the disk and the number
--   of transfers so far; the device, of which any transfer may fail, is an argument. Fat/Layout, Copies,
--   Entry, Alloc and Chain are about the file allocation table, Fat/Directory has the searches of the root
--   directory as one walk, Fat/File the files, and Fat/Volume the boot sector and the partitions. Fat/File/Undo
--   is about a write that fails, Fat/File/Success about one that does not fail, and Fat/File/RoundTrip and
--   Whole about reading the file again; Fat/Names finds the name of the next report. Walks along a chain have the fuel of the code; the loops over the
--   data of a file have as many rounds as bytes remain, and each round takes at least one.
-- - Strings: `memmove` and `memset` of lib/string.c, on a memory that is a function from addresses to
--   bytes; `memset` is compiled for some builds only. Strings/Search is
--   `memcmp`, `strlen` and `strstr`; the fuel of `strlen` counts the bytes that it reads.
--
-- Not modelled are the device drivers, the display, the tables of the firmware, and the start-up code,
-- which are hardware access; the code of other builds than the 64-bit x86 one; and the display of the
-- patterns. Of `test_all_windows` the barriers, the relocation, the dummy run and an abort are left
-- out: it is modelled as its master runs it to the end. Of the tests the display, the caches and the
-- barriers are left out, and so are faults by which the write of one word changes another.
mod Base
pub mod Config
pub mod Badram
pub mod Pmem
pub mod Heap
pub mod Chunk
pub mod Vm
pub mod Window
pub mod Strings
pub mod Master
pub mod CellTests
pub mod Control
pub mod Errors
pub mod Spinlock
pub mod Barrier
pub mod Fat
