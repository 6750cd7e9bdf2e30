-- ===== src/Lib.antt =====
-- Titanix, a small 64-bit kernel: a verification of its C code.
--
-- The kernel boots into long mode, maps memory by four levels of page tables, gives out memory from a
-- heap of linked segments, takes interrupts through a descriptor table and two interrupt controllers,
-- reads a keyboard, and prints to a text screen and a serial port. The heap calls the page tables for
-- pages, which call the frame allocator for tables; the frame allocator keeps a list of sections, made
-- from the memory map; the timer and the keyboard have vectors of the descriptor table; the keyboard
-- writes to the screen and sets masks in the interrupt controllers; log functions print numbers to the serial port.
--
-- The files and the code they are about:
--   Heap       src/heap/heap.c, include/lib/heap.h. The headers of the segments lie in a store by
--              address, beside the static variables heap_start, heap_end, last and heap_initialized.
--              init_heap, expand_heap, combine_with_next, combine_with_prev, split_header, free and
--              malloc have the names of the source; insert_header, take_segment, find_segment,
--              append_header, ensure_heap and round_up are parts of these functions. Heap/Data has
--              calloc and realloc, which also work on the bytes of Memory. Headers and bytes are
--              two stores; a copy beyond its segment, which would overwrite headers, has no
--              result.
--   Blocks     what the heap is for: a list of segments, each a length and whether it is free. Holds
--              (Heap/Chain) says that the store is the doubly linked chain of such a list, from
--              heap_start to heap_end.
--   Pager      what the heap uses of the page tables and the frame allocator.
--   Paging     src/vmm/vmm.c, include/lib/vmm.h. All tables are one store, by table and index.
--   Memory     src/lib/functions.c: memcpy, memcmp, strlen, memset and memsetw, on bytes. memcpy,
--              which counts in an int, has no result for 2 ^ 31 bytes or more.
--   Numbers    src/lib/functions.c: len, pow and the loops that print the digits of a number.
--   Console    src/lib/functions.c: puts, puts_with_va and the log functions. The serial port is the
--              list of the bytes sent.
--   Ports      the ports of the machine, which the drivers read and write by inb and outb.
--   Pmm        src/pmm/pmm.c, include/lib/pmm.h. The records of sections lie in a store by address, beside
--              the variables. Holds (Pmm/Table) says that the store is the doubly linked chain of a
--              list of ranges of pages, with a table behind it that has room. Pmm/Sample is a table
--              for the runs.
--   Frames     src/pmm/page_frame_allocator.c: pmm_section_split, the joins, and pmm_alloc_page. What this is
--              for is first_free of Frames/Scan, on the ranges, and Taken of Frames/Owner, on the
--              bytes of memory.
--   Locks      src/pmm/page_frame_allocator.c: pmm_free_page, pmm_lock_page and the loops over them.
--   Mmap       src/boot/mmap.c, src/pmm/full_mmap.c, include/lib/mmap.h: the memory map, memory taken from
--              it at boot, and the list of its entries.
--   Start      src/pmm/pmm.c: pmm_start, from the list of the memory map to the list of sections.
--   Timer      src/pit/pit.c. pit_deadline is a relation: each of its statements is a step, with
--              interrupts between them.
--   Pic        src/pic8259/pic.c.
--   Idt        src/interrupts/idt.c, idt_gate_t of include/lib/interrupts.h.
--   Monitor    src/drivers/monitor.c. The buffer is a store of cells by index; the writes to ports are
--              a list.
--   Isr        src/interrupts/isr.c, isr_frame_t of include/lib/interrupts.h: the exceptions, which
--              print by Monitor and Console, and the call of a routine that Idt has installed.
--   KernelMap  src/paging/load_page_tables.c, include/lib/paging.h: the page tables made at boot, by the
--              operations of Paging, of the list of Mmap.
--   Keyboard   src/drivers/ps2_keyboard.c, enum CODES of include/lib/ps2_keyboard.h. Keyboard/Device has
--              what talks to the keyboard: the commands, init_keyboard and keyboard_handler, which
--              uses Pic, Idt and Monitor.
--   Base       tests, lists, machine words and the arithmetic of bits that these files share.
-- Each theory has its definitions in the file of its name and its theorems in the files below that; the
-- runs at concrete inputs are in the files Tests.
--
-- Numbers are natural numbers. A store into a field of w bits takes the remainder modulo 2 ^ w (u8,
-- u16, u32, u64, add64 and so on in Base/Words); an address is the number of its byte.
--
-- Loops that the code bounds recur on the number of rounds left. The others take fuel, and have no
-- result when it runs out: find_segment walks a chain within heap_end - heap_start steps, since each
-- segment is longer than its header; strlen and the loop of %s have a 32-bit index, so 2 ^ 32 rounds
-- see all they can see; len divides its number, and the number itself bounds the rounds; format_loop
-- takes a character in each round. malloc calls itself after an expansion, paging_map_page calls itself for a table that
-- it makes, and handle_back_space for a blank cell; the fuel is an argument there. The walks over the
-- sections take more fuel than there are sections, and pmm_recombine as many rounds, since each but the
-- last makes the list shorter. digits_loop has fuel for 8 hexadecimal or 10 decimal digits. The
-- polls of a port (ps2_wait), whose fuel must be above the `limit` of the controller, and the calls of
-- ps2_keyboard_set_scancodes by itself, take fuel as an argument: the keyboard may never answer. In
-- paging_load_kernel_map one fuel is above the number of entries, one above their numbers of pages, and
-- one is that of each paging_map_page.
--
-- Given as parameters: the frame allocator, the addresses of the interrupt stubs and of the
-- descriptor table, the routines that interrupts call, the register cr2, and the ports. That the two
-- data ports of the interrupt controllers read back what was written is the record Registers of
-- Pic/Masks, which says nothing of other ports. That a keyboard behind the ports answers byte by byte,
-- and that its controller is busy for at most `limit` polls after a byte is written to it, and may
-- lose what is written meanwhile, is the record Wire of Keyboard/Device.
--
-- Not modelled: assembly, with the stubs that build the frame of an exception, and the boot sequence of
-- main.c, which calls the parts in turn. Functions that only log are left out, and so are the
-- lines that are logged inside alloc (src/boot/mmap.c) and init_keyboard (src/drivers/ps2_keyboard.c);
-- of print_idt the address that it puts together is modelled.
-- src/pmm/memory_pool_allocator.c names a parameter and a constant that nothing declares, and has no
-- meaning to model. The effect of invlpg is on a cache that the model does not have.
pub mod Base
pub mod Pager
pub mod Blocks
pub mod Heap
pub mod Paging
pub mod Memory
pub mod Numbers
pub mod Console
pub mod Pmm
pub mod Frames
pub mod Locks
pub mod Timer
pub mod Mmap
pub mod Start
pub mod Ports
pub mod Pic
pub mod Idt
pub mod Isr
pub mod KernelMap
pub mod Keyboard
pub mod Monitor
