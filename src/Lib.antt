-- ===== src/Lib.antt =====
-- shit os 2: parts of the kernel, loadable drivers, the C library and the terminal, modelled and proved.
--
-- The kernel loads drivers that reach it only through a table of calls (include/shitos/module/api.h).
-- Programs link the C library (user/libc) and, for windows, libui (user/libui). This library models
-- four of the kernel's subsystems, three drivers, parts of the C library and libui's terminal, each as
-- functions translated from its source file, and states what they do.
--
-- Prelude: the operators, Boolean tests, lists and integers that all parts use. A C array is a list
-- over native numbers; a w-bit count keeps its wrap-around, as `% 2 ^ w`.
--
-- Kernel.Memory: kernel/mm/physical.cpp. `Physical` is the page allocator on its bitmap, `Initialize`
-- physical_initialize on the memory map. `Count` relates the count of used pages to the bitmap,
-- `Allocate`, `Contiguous` and `Release` state what the operations do, `Ranges` and `Map` what becomes
-- of ranges of addresses and of the whole map.
-- Kernel.Heap: kernel/mm/heap.cpp. `Alloc` is kmalloc and kfree on the pages of Kernel.Memory; `Bytes` counts
-- the chunks that a byte lies in, `Refill` carves a page, `Blocks` has allocations beside each other,
-- `Give` and `Free` are about kmalloc and kfree, for any other allocations beside, `Twice` about the
-- alignment of chunks and a second kfree. `Realloc` has kzalloc and krealloc, with memcpy and memset of kernel/lib/string.cpp in `Copy`, and `Aligned`
-- the allocations of whole pages, which `PageAligned` is about.
-- Kernel.Pipe: kernel/fs/pipe.cpp. `Buffer` is PipeBuffer, an operation being its turns between waits.
-- `Contents` sees the ring as a list, `Stream` and `Writes` state one turn, `Poll` what poll is told,
-- `Meeting` the opening of a named pipe. `Preempted` has the copying loops statement by statement, with
-- other threads running between any two.
-- Kernel.Tty: kernel/dev/line_discipline.cpp. `Discipline` is LineDiscipline; a pty and the console feed
-- it. `Queue` sees its buffers as lists, on the lemmas of Kernel.Pipe, since both rings have one size;
-- `Editing` is an editor of lines on lists, which `Feed` shows feed to be, `Typing` feeds several
-- characters, `Reading` is about read and poll.
--
-- Drivers.Ring: the ring buffers of modules/ps2kbd/ps2kbd.c and modules/ps2mouse/ps2mouse.c, which
-- have one shape (buffer_push, buffer_pop, push_event and the loops of the reads). `Refine` sees a
-- ring as a bounded queue (`Fifo`), `Race` lets the interrupt write between the steps of a reader,
-- `Drain` is the loop of a read.
-- Drivers.Kernel: the table of calls. `World` stands for the kernel and the hardware, and is a
-- parameter. Drivers.Recorder is a kernel that answers as it likes and remembers the calls.
-- Drivers.Ps2kbd: modules/ps2kbd/ps2kbd.c. `State` is struct Ps2Keyboard with the layout tables,
-- `Irq` keyboard_irq and what it calls, `Streams` an independent description of what the keys mean,
-- `Runs` any number of interrupts, `Read` keyboard_read and event_read, `Init` module_init and
-- module_fini, `Release` what is held of the kernel after module_init.
-- Drivers.Ps2mouse: modules/ps2mouse/ps2mouse.c. `Packet` is mouse_irq and mouse_read, `Setup` the
-- conversation with the controller in mouse_init, and mouse_fini; `Decode` and `Keyboard` state what
-- these do.
-- Drivers.Rtc: modules/rtc/rtc.c. `Cmos` is rtc_read_epoch and what it calls, `Device` the
-- rest of the driver; `Civil` has days_from_civil beside the calendar of the C library.
-- Libc.Time: gmtime and mktime of user/libc/src/time.c.
-- Libc.Search: bsearch of user/libc/src/stdlib.c, on what the comparison returns at each index.
-- Libc.Convert: strtol of the same file; `Print` has it read what is written in decimal.
-- Libc.Sort: qsort of the same file; `Count` and `Order` state that it keeps and orders the elements.
-- Libc.Heap: malloc, free, calloc and realloc of user/libc/src/stdlib.c. `Blocks` is the list of blocks
-- by address, seen from one of them where the source follows its pointers, with the lists of free
-- blocks by size class; `Alloc` the operations; `Chain`, `Count`, `Split`, `Find` and `Grow` the lemmas
-- of their steps, `Valid` and `Freeing` what malloc and free keep, `Wrap` sizes near the end of a size_t.
-- Libc.Strings: user/libc/src/string.c. `Memory` is memcpy, memmove and memset on one memory, where
-- ranges can overlap; `Text` measures and compares, `Search` looks for bytes and strings and has
-- strtok, `Copy` writes strings.
-- Libc.Regex: the matcher and regexec of user/libc/src/regex.c, on the tree that its compiler builds.
-- `Matcher` has the calls of the matcher as goals, which `search` runs, `Regexec` the loop over the
-- start offsets; `Language` is what it looks for, `Textbook` the language of an expression, and
-- `Agreement` relates the two, with `Asserted` for assertions that are repeated. `Explores` says what a part of the search finds, `Reaches` which ends a
-- goal looks for, `Steps`, `Groups` and `Pieces` go through
-- the code, `Leftmost` is about the loop.
-- Libui.Terminal: user/libui/terminal.c. `Grid` is the ring of rows, `Parser` the escape sequences
-- and ui_terminal_feed, `Reshape` the grid for a new size of the widget; `Bounds` and `Erase` state what these do.
--
-- Loops: those over a count recurse on it. Loops that wait for hardware (draining the controller) run
-- on fuel and return `none` without it; they need one unit for each round and one to stop. Loops with
-- a bound of their own (the timeouts of the mouse and the clock) have that bound. A read's waits are a
-- list of what the interrupts of each wait do. find_year and find_month run on as many units as there
-- are days and months left, which is enough; bsearch runs on as many as the array has elements, and
-- a round takes at least one of them out. The search for the place of the page bitmap runs
-- on the number of pages of a region, and one: a further unit changes nothing. bin_index has 15 units,
-- as there are 16 classes. The matcher of regular expressions runs on as many units as the source's own
-- budget, MATCH_BUDGET, which counts the same calls: it is cut short only when that budget is spent.
--
-- Left out: `log`, which a driver cannot observe; the locks of the page allocator and the heap, which each of
-- their operations holds from end to end, but krealloc, kmalloc_aligned and kfree_aligned, which take them for
-- each of their parts and run here without another call between these; the wait queues and their wakes. The kernel is preemptive, and the pipe
-- and the line discipline take no lock: what is said of a turn of theirs is said of one that no other thread
-- uses the same pipe or terminal beside, but in Kernel.Pipe.Preempted. Painting, windows and the other files of
-- libui; the rest of the kernel; stdio, the compiler of regular expressions and system call wrappers of the
-- C library. `malloc` is a parameter of strdup, and what sbrk answers is one of malloc. A terminal's parameter
-- is a number of any size, where the source's `int` overflows after ten digits, and a year is too, where the
-- source's overflows from about 2^56 seconds on. The bytes that the kernel's heap takes for headers and links
-- are not bytes of the memory that krealloc copies in.
pub mod Prelude
pub mod Drivers
pub mod Libc
pub mod Libui
pub mod Kernel
