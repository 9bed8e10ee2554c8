-- ===== src/Lib.antt =====
-- A model of the myos kernel, as it is built for amd64, and what holds of it.
--
-- A loader (boot/main.c) reads the kernel from the disk (kernel/ide.c). The kernel hands out physical
-- pages and builds page tables (kernel/mm.c), shows text and takes keys
-- (kernel/console.c), keeps a small file system on a disk (kernel/fs.c), and gives the user programs
-- both as open files (kernel/file.c). It runs up to ten processes (kernel/proc.c), which share pages
-- and files after a fork. lib/lib.c has the byte strings that all of them use. The files
-- call the file system for an inode's blocks and for a name, the file system takes a page for each
-- block that it reads, and a read or a write of the console goes to the keyboard's buffer and to the
-- screen.
--
-- The modules:
--   Prelude          tests on numbers, lists, integers, bits, and results of functions on a state;
--   Klib             lib/lib.c: memset, memcpy and strcmp over a memory of bytes;
--   Console.Screen   kernel/console.c: cls and myputchar, with the video memory by its bytes;
--   Console.Number   kernel/console.c: unsigned_recursion and itoa;
--   Console.Print    kernel/console.c: print, with its arguments as numbers and texts;
--   Console.Keyboard kernel/console.c: the ring `kbs`, handle_scancode and kbd_handler;
--   Mm               kernel/mm.c: init_mem, init_page, alloc_page, free_page, walk_page, insert_page and
--                    remove_page. A page is its index in `pages`, and memory is 64-bit words by frame;
--   Fs               kernel/fs.c: the block bitmap, walk_block and walk_path. An inode is its number,
--                    and the disk is its blocks of bytes;
--   File             kernel/file.c: `filetable`, `current->fdtable` and the calls from sys_open to
--                    sys_lseek. A file is its index, and the user's memory is bytes.
--   Proc             kernel/proc.c: the table of processes, schedule, sys_fork, destroy_proc,
--                    sys_waitpid and, in Proc.Load, load_img and create_proc. A process is its index in `procs`. A call that enters another process
--                    ends there, since run_proc does not come back.
--   Trap             kernel/amd64/trap.c: the page fault of do_trap, which maps a new page or copies a
--                    shared one, and, in Trap.Gates, the descriptors that init_trap and set_tss_desc write;
--                    a Handler is an entry point of kernel/amd64/trapentry.S, whose address is a parameter.
--   Cache            kernel/cache.c: the list of cached blocks. A block is its index in `pcaches`, and the
--                    list's head is none.
--   Port             include/amd64/x86.h: input and output on ports. What a device answers is a function of
--                    all that it was sent and asked, and the kernel's side is the list of its accesses;
--   Port.Ide         kernel/ide.c: readblk and writeblk;
--   Port.Pic         kernel/pic.c: the interrupt controllers' masks and their set-up;
--   Port.Pit         kernel/pit.c: the timer's set-up;
--   Boot             boot/main.c: the loader, which reads the kernel's ELF file from the disk and enters it;
--   Smp              kernel/lapic.c: the search for the multiprocessor tables, the processors listed there,
--                    and their start. Memory is bytes by physical address, and what the local APIC sends is
--                    read from the list of the stores to its registers;
--   Vmx              kernel/amd64/vmx.c: the virtual machine monitor. The fields of the VMCS and the model
--                    specific registers are functions of their numbers, and the guest's page tables are
--                    those of Mm. A run of the guest is the registers and fields that it leaves.
--   Image            scripts/mkxxx.c: the builder of a disk image with one file.
-- A module named Tests has runs at concrete inputs.
--
-- Functions on a state return a result and the next state, or a fault, which is the use of a pointer
-- that is NULL or was never set. Arrays and tables are functions of their index. Machine words keep
-- their wrap-around where the source can reach it: page addresses, print's arguments, block numbers
-- and positions of the ring.
--
-- Fuel: strcmp runs on fuel, and more fuel than the first string has characters is enough, which its
-- theorem assumes and walk_path inherits for names of less than 14 characters. file_read and
-- file_write get `count` rounds, and each round moves at least one byte. unsigned_recursion gets 64
-- rounds, enough for 64 bits in any base from 2 on. schedule gets ten rounds, one for each process, and
-- the loops of free_pgtable 512 each, one for each entry of a table. The loader gets 2^16 rounds, more than
-- the 16 bits of e_phnum allow, and the search of the page cache 32, one for each block. A wait for the disk
-- gets a number of polls that is a parameter: a disk is ready within it, and its data are assumed only right behind
-- a poll that found it not busy.
--
-- Left out: the messages for debugging and the printing of registers; the self test of kernel/mm.c;
-- negative file offsets; sys_execve, and the dispatch of traps and system calls; assembly, with what a
-- guest does while it runs; the 32-bit variant. What the keyboard controller delivers is a list of
-- readings.
pub mod Prelude
pub mod Klib
pub mod Console
pub mod Fs
pub mod File
pub mod Mm
pub mod Port
pub mod Proc
pub mod Trap
pub mod Boot
pub mod Vmx
pub mod Smp
pub mod Cache
pub mod Image
