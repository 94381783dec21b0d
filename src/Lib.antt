-- ===== src/Lib.antt =====
-- Lambda OS: models and theorems for parts of the kernel and of the library of user space.
--
-- Lambda OS is a small kernel for x86 and 32-bit ARM with loadable modules, and a C library and a
-- few programs for user space. In the kernel every part stands on the allocator and on the C
-- library of kernel/src/std: the file system allocates its files and copies its names with them,
-- the scheduler and the conditions keep their threads in the circular lists, pipes and locks are
-- built on the circular buffer, the initial RAM disk is unpacked by the decompressor, and
-- processes find their programs by path in the tree of files. The library of user space has an
-- allocator of its own, which follows the kernel's.
--
-- Files and the code they model, by the paths of the repository:
--   Prelude: the shared helpers. Prelude.Word has the wrap-around of 32-bit words,
--     Prelude.Outcome the end of a call that can panic or follow a NULL pointer.
--   Mm.Alloc: kernel/src/mm/alloc.c. The static table `allocs` is a list of pointers to tables,
--     `none` for NULL, and a table is a list of `struct alcent`. Table has the slots (add_alloc,
--     get_free_block), Search the search (_find_hole, _empty_slots), Alloc itself
--     _alloc_new_block, kamalloc, kmalloc, kmamalloc and init_alloc, Release rm_alloc, kfree and
--     the sums. Tally counts a property over all entries, and Cover says with it which addresses
--     the entries take; Place, Entries, Found, Sound and Keep carry the lemmas of allocation to
--     Exclusive, Disjoint, Room and Stays, Merge and Free those of freeing to Kfree.
--   User.Malloc: user/lib/src/stdlib/alloc.c, on the tables of Mm.Alloc. What the two allocators
--     have word for word alike is taken from there. Refine relates malloc and free to the
--     kernel's functions and brings the theorems over, Resize is about realloc, Init about the
--     first heap.
--   User.Environ: user/lib/src/stdlib/getenv.c and setenv.c, with strchr and strncmp of
--     user/lib/src/string, on lists of characters. The results of malloc and realloc are
--     parameters.
--   Crypto.Lzo, Crypto.Lzop: kernel/src/crypto/comp/lzop.c on the memory of Std.Memory, the block
--     decompressor _lzo1x_decompress_block with its macros, and the container lzop_decompress
--     around it. Step and Inside are about where it writes, Stored and Overread about single
--     blocks, Header, Archive and Unpack about whole archives. kmalloc is a parameter.
--   Proc.Lock: kernel/inc/proc/atomic/lock.h and kernel/src/proc/atomic/lock.c. What other
--     threads do to the lock and the time while a thread waits is a parameter.
--   Proc.Sched: kernel/src/proc/sched.c. Queue has the queue of new threads and their way to the
--     processors, whose lists are lists of threads, and where the append of a thread that is in
--     one already is a fault; Next the choice of the next thread, on the ring of items of
--     Data.Llist.
--   Proc.Cond: kernel/src/proc/cond.c, up to the call of the scheduler in cond_wait.
--   Io.Number: _print_int and _get_dec of kernel/src/io/output.c.
--   Data.Cbuff: kernel/src/data/cbuff.c. The structure is a record, and each function returns its
--     result and the structure that it leaves. Queue is the bounded queue that Refine and
--     Transfer show the buffer to implement; Window is what the buffer holds, Life is about
--     cbuff_allocate and a write that is read back.
--   Data.Llist: kernel/src/data/llist.c. An item is an address in a heap of items, and HasItems
--     of Ring says which items a list has, in order; Append, Remove, Pop, Count and Iterate are
--     about the functions of these names.
--   Std.Number, Std.Libgen: strtoul of kernel/src/std/stdlib.c with kernel/inc/ctype.h, and
--     kernel/src/std/libgen.c.
--   Std.Bytes, Std.Text: kernel/src/std/string.c, on the memory of Std.Memory, which has a byte
--     at each address; a function that writes returns the memory. Addresses are not bounded, so a
--     block that would run over the end of the address space is outside the model.
--   Time: kernel/src/time/time.c. The event functions are a parameter, and the calls of them are
--     recorded.
--   Fs.Tree, Fs.Path, Fs.Ops: kernel/src/fs/fs.c. A file is an address, and the tree is the
--     record of the files at their addresses, the root and the next file number; a file says
--     whether its list item is in a list of children, where fs_add_file has no result. Fs.Tree
--     has fs_finddir and fs_add_file, Fs.Path fs_find_file, Fs.Ops the calls through tables of
--     operations.
--   Elf: kernel/src/proc/elf/elf.c with the structures of kernel/inc/proc/types/elf.h, on an
--     image in memory; Find is about the search for a section, Copied and Symbols about the
--     loading of symbols.
--   Modules: the kernel modules. Modules has kernel/src/mod/symbols.c and the requirements,
--     Modules.Relocate the relocation and Modules.Place the placing of kernel/src/mod/module.c,
--     and Modules.Preload kernel/src/mod/preload.c and module_start_thread. The kernel's list of
--     loaded modules is the list of their symbols; the memory of a module is reached through a
--     map from its addresses, and _alloc_map is a parameter. The array of placed sections is
--     written to memory, and what reads it reads the list of its entries.
--   Io.Format: print of kernel/src/io/output.c over Io.Number, with the arguments in memory as
--     i386 calls leave them; Count and Returns are about the number of characters, Printed and
--     Pieces about what is put out.
--   Proc.Exec: _store_arguments and _exec_copy_arguments of kernel/src/proc/exec.c, which do the
--     same with two allocators.
--   Fs.Procfs: kernel/src/fs/procfs.c and proc_add_file of kernel/src/proc/proc.c, over an
--     interface to the files, the allocator and the scheduler.
--   Fs.Initrd: reading of kernel/src/fs/initrd.c on the memory of Std.Memory.
--   Fs.Stream: kernel/src/fs/stream.c over Data.Cbuff. A pipe is its buffer and the length of its
--     file.
--
-- Fuel: the loops of strlen, strcmp, strncmp, strchr, strcpy, strtoul, dirname and basename run
-- to the end of a string, and fuel above its length is enough; fs_find_file passes a shorter path
-- to each of its calls, and fuel above the length of the path is enough; a walk over a list, the
-- choice of the next thread among them, needs fuel of the number of its items, and one or two
-- more to iterate; lock_for needs fuel above its milliseconds; the loops of lzop_decompress need
-- fuel above the number of blocks; _print_int has fuel for the digits of a 64-bit number in any
-- base from 2 on; print needs fuel of the length of its format, and fuel above the length of a
-- string for it; a table of arguments needs fuel above its number of strings; the search for a
-- section needs that of its comparisons, and the loop of proc_fs_read_blk, which waits for as
-- long as a stream gives nothing, has no bound. The loop of _lzo1x_decompress_block and its count
-- of zeroes depend on the input, and the theorems that say that it ends are about stored blocks.
-- All other loops are over lists or numbers that bound them.
--
-- Numbers: a 32-bit word is a number with its wrap-around written out, and an `int` result is its
-- bit pattern, so that -EINVAL is `neg 22`. The proofs on the allocators have hypotheses that
-- keep the sum of a size and its alignment in 32 bits, which the code does not test, and say what
-- the memory of a new table reads as, which the code does not clear.
--
-- Not modelled: the hardware code under kernel/arch; the locks around the operations of the other
-- parts, each of which is one step; the thread locks of tlock.c; the list heap of
-- kernel/src/data/llist.c in Fs and in Proc.Cond, which take their lists as lists; the tests of
-- addresses that strict builds add; devices; the creation of processes and threads, the mapping
-- of programs, the reading, installing and removing of modules, memory maps, the unpacking of
-- initrd, directory entries, and the programs of user space.
pub mod Prelude
pub mod Data
pub mod Mm
pub mod Std
pub mod Fs
pub mod Time
pub mod Crypto
pub mod Proc
pub mod User
pub mod Io
pub mod Elf
pub mod Modules
