-- ===== src/Lib.antt =====
-- Electric_OS: a 64-bit kernel with a window system and its programs. The kernel takes memory from
-- the firmware's map by the page allocator, maps it by page tables, and cuts it up by the heap;
-- interrupts feed the keyboard, the mouse and the clocks; the process handler sends messages to the
-- programs, which answer with requests, and keeps their windows.
--
-- Base: shared names, words of 32 and 64 bits (% 2 ^ w), bits, lists, integers.
-- Memory/PageAllocator: src/Memory/Paging/PageAllocator.cpp. `Allocator` is its three globals; the map
--   is a function from an index to a byte. Each function has its source's name; a loop is a helper
--   named _loop over the rounds that are left. Children: Status (one page), Request (RequestPage),
--   Valid (the invariant), Ranges (LockPages, FreePages), Counts, Init and Init/Covers (Init).
-- Memory/Paging: src/Memory/Paging/PageTable.cpp and PageIndexer.cpp. `Machine` is PML4, the tables
--   in memory by frame address, and the allocator, which `MapAddress` calls by `request_page`. Walk is
--   the processor's walk, Tree the invariant of the tables, MapAddress what a call does, Init
--   what the kernel's start leaves in the tables.
-- Memory/Heap: src/Memory/Heap.cpp. `Heap` is the two globals, the headers in memory and the page
--   tables. Chain and FirstFit are lists of segments and first fit on them; Allocate, Free and Sizes
--   say what the loops do to the list, Split where the size wraps. A chain in memory may be a cycle,
--   so the loops run on fuel, out_of_fuel without it; the theorems take fuel above the list's length,
--   and return a result. `allocate` has a second fuel for the call of itself after Reserve.
-- Stl: src/STL/Math/Math.cpp, Math.h, Point.cpp and src/STL/String/cstr.cpp. `get_digit_amount` runs
--   eleven rounds, one more than a 32-bit number has places. Stl/Str is src/STL/String/String.cpp: the
--   memory of a string is a list of bytes, `none` an access outside of it; Edits runs sequences of
--   edits. Stl/Memory is src/STL/Memory/Memory.cpp: memory is a function, and the copy loops run on
--   fuel, for which one more than the bytes is enough. Stl/Framebuffer is
--   src/STL/Graphics/Framebuffer.cpp and ARGB.cpp: `base` is a function from a pixel's place;
--   Edges and Text are the raised edges and the characters. Stl/Gui is src/STL/GUI/Button.cpp and
--   Label.cpp.
-- Input: src/Input/KeyBoard.cpp and Mouse.cpp. `KeyBoard` is the three variables of the first;
--   `key_of` is the lookup, with `behind` for the memory behind the tables. `Mouse` is the position and
--   the buttons.
-- Clock: src/PIT/PIT.cpp and src/RTC/RTC.cpp. The chip's registers are an argument.
-- Interrupts: src/Interrupts/Handlers.cpp and IDT.cpp. `System` is the state of the parts that the
--   handlers call, with their static variables. Cycle is about the bytes of the mouse; in Reach, a
--   `Step` is an interrupt, a round of the main loop or a system call, in any order, except that
--   RESET, after which the loop starts anew with pointers to deleted processes, is no step.
-- System: src/System/System.cpp. `system` finds the function that a text calls, and
--   `command_start_program` the program that it starts.
-- Programs/Calculator: src/Programs/Calculator/Calculator.cpp. `Calculator` is its globals, `press`
--   what a button does, `mouse` the message MOUSE; Clicks says which button a click presses.
-- Programs/Tty: src/Programs/tty/tty.cpp, with the cursor of `Framebuffer::Print`. What a
--   command does to the globals, and its answer, are an argument.
-- Programs/Terminal: src/Programs/Terminal/Terminal.cpp with what it draws; Scroll and Room are about
--   its scrolling.
-- Programs/Tetris: src/Programs/Tetris/Tetris.cpp. `Game` is its globals, with the seed of `Rand`;
--   `procedure` is Procedure, Shape the pieces. The grid is a function of the index,
--   also outside of the array.
-- Programs/StartMenu, SystemMenu, Topbar, Desktop: the files of these names in src/Programs. The
--   globals are a record; a message also leads to the texts that are passed to `STL::System`, whose
--   answers are an argument. Clicks and Menus say which programs the buttons start and kill.
-- ProcessHandler: src/ProcessHandler/ProcessHandler.cpp and Process.cpp. `Handler` is the list and the
--   pointers; a process is named by its ID. What a program answers is an argument;
--   in Events, a `Reaction` is what it does to the handler by the system calls that it makes while
--   it is messaged, and its answer, as Suicide and Starting have it. On TICK and INIT it only answers.
--   The handler of `new_process` is the one that INIT leaves: a program that starts another one from
--   INIT would first change the list by that call. The memory of a new process is
--   an argument too, because the constructor reads fields that it has not written. `none` is a stop
--   with an error, an index out of the list or a pointer to a process that is gone. Frame buffers are
--   not taken from the heap here. Events holds the focus and the interrupts, Events/Loop the main loop
--   with the two requests of src/ProcessHandler/Compositor.cpp; a pass runs on fuel, for which one
--   more than the processes is enough where no program starts or kills another one in it.
--
-- Pci, Acpi, Ahci: src/PCI/PCI.cpp, src/ACPI/ACPI.cpp, src/AHCI/AHCI.cpp and HBAPort.cpp, over the
--   bytes of the hardware and the firmware, which are arguments. `Enumeration` is the four static
--   variables with the page tables that `MapAddress` changes; Functions is what should be found,
--   Resume and Buses what is left where an enumeration goes on, Drain the calls until it is false,
--   with one more of fuel than there are functions.
--
-- Not modelled: port and device I/O, the output of commands, the bootloader, and gnu-efi, which is
-- another project's library. Signed coordinates are integers: an
-- overflow of `int32_t` is undefined in the source.
pub mod Base
pub mod Memory
pub mod Acpi
pub mod Ahci
pub mod Pci
pub mod Stl
pub mod Input
pub mod Clock
pub mod Programs
pub mod ProcessHandler
pub mod Interrupts
pub mod System
