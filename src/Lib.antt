-- ===== src/Lib.antt =====
-- duvuvurkarpogeschel, a MikanOS kernel with its loader and applications, modelled function by
-- function. Paths are from the repository's root.
--
-- Parts and files
--   Error            kernel/error.hpp: the codes, and WithError as a sum.
--   Message          kernel/message.hpp: the tagged union of messages.
--   Memory           kernel/memory_manager.hpp and .cpp, kernel/memory_map.hpp: class
--                    BitmapMemoryManager. The record has alloc_map_ as a list of 64-bit words and the
--                    range; GetBit is get_bit, SetBit set_bit, the loops of MarkAllocated and Free
--                    set_bits, the loops of Allocate scan (inner) and search_run (outer), Stat stat.
--                    Line has the laws of one bit, Marks those of a run, Allocate the search,
--                    Ownership what allocations mean for one another, Statistics the counts. Boot is
--                    InitializeMemoryManager over the list of UEFI descriptors, Boot/Available what
--                    the bitmap holds after it, Boot/ProgramBreak InitializeHeap.
--   Task             kernel/task.hpp and .cpp: class Task, its context and its message queue.
--   RunQueue         the vector of tasks and the deques of task pointers; a Task* is the task's ID.
--   TaskManager      class TaskManager: RotateCurrentRunQueue, ChangeLevelRunning, Sleep, Wakeup,
--                    SwitchTask, Finish and WaitFinish. Table has the laws of the task table and the
--                    queues, Invariant the scheduler's invariant and the rotation, Wake, Level, Sleep,
--                    Switching, Mailbox, Departure, Exit and Waiting the operations, Reach histories.
--   Prelude          names shared by all, Boolean tests, lists over the native numbers, integers,
--                    bits and masks of words (Bits, Masks), size_t arithmetic, std::map.
--   Timer            kernel/timer.hpp and .cpp: classes Timer and TimerManager. The priority queue
--                    is a sorted list; Tick is tick, its loop expire. Expiry has the loop, Sending the
--                    messages, Order the queue's order.
--   Fat              kernel/fat.hpp and .cpp. Table is the allocation table with NextCluster,
--                    ExtendCluster and AllocateClusterChain (Chain, Acyclic, Extend, Allocate), Name
--                    the 8.3 names with NameIsEqual, SetFileName, ReadName and FormatName (Matching,
--                    Padding, Long), Volume the boot record and addresses, Reader the reading side of
--                    FileDescriptor (Cursor, Contents, Short) and Load (Offset), Writer the writing side
--                    (Small), Directory FindFile, AllocateEntry and CreateFile (Creation).
--   Layer            kernel/layer.hpp and .cpp: LayerManager's stack (Stack), FindLayerByPosition
--                    (Position) and ActiveLayer::Activate (Activation).
--   Text             kernel/lang/font.cpp, and ConvertUTF32toUTF8 of kernel/terminal.cpp: UTF-8
--                    (Utf8/RoundTrip) and the widths of texts (Utf8/Width).
--   Terminal         kernel/terminal.hpp and .cpp: class Terminal's cursor, line and history (Bounds,
--                    Lines, Printing), the parsing of a line and MakeArgVector (Command with Split and
--                    Vector), class PipeDescriptor (Pipe, Pipe/Stream).
--   Elf              kernel/elf.hpp, and LoadELF of kernel/terminal.cpp on the page maps (Segments, Loading).
--   Paging           kernel/paging.hpp and .cpp: the page maps (Address, Setup) and the page fault
--                    handler (Fault, Fault/Copy).
--   File             kernel/file.cpp: ReadBinary and ReadDelim (Delim).
--   Syscall          kernel/syscall.cpp: ReadEvent and CreateTimer (Events, Events/Order), the calls on
--                    files and mappings (Files, Files/Table, Files/Mappings).
--   Usb              kernel/usb/xhci/ring.hpp and .cpp: class Ring, with the cycle bits (Handshake).
--                    Pool is kernel/usb/memory.cpp (Blocks).
--
-- How they interact. The timer's interrupt ticks the TimerManager, which sends messages through the
-- TaskManager and asks for a switch. Layers and terminals send and receive the same messages. Page
-- tables and the heap take their frames from the BitmapMemoryManager.
--
-- Bounds and fuel. size_t and uint64_t wrap at 2^64, written out where the source adds or multiplies.
-- The search of Allocate has the length of the range as fuel: each round moves its start on. The loop of
-- Tick has the queue's length as fuel, those of Read and Write the bytes wanted (a round
-- moves one at least where a cluster has any), and the walk to the end of a
-- cluster chain the table's length, since a chain that ends visits no cluster twice. The loops over
-- a text have one round for each code point, that over the words of a line the line's length, and
-- that of SetupPageMap the 512 entries of a map.
--
-- Not modelled. Assembly (context switches, CR3, interrupts), drawing into frame buffers, device
-- registers, and the code of other projects (stb_image.h, the loader's UEFI library, newlib). Log
-- output is left out. The loader of ELF files records its writes; what they leave in the pages is not
-- modelled. An access outside an array is undefined in C++: a read there gives a default
-- and a write is lost, and the theorems bound the indices.
pub mod Prelude
pub mod Error
pub mod Message
pub mod Memory
pub mod Task
pub mod RunQueue
pub mod TaskManager
pub mod Elf
pub mod Fat
pub mod File
pub mod Layer
pub mod Paging
pub mod Syscall
pub mod Terminal
pub mod Text
pub mod Timer
pub mod Usb
