-- ===== src/Lib.antt =====
-- libdeepc: a verification library of the C standard library in this repository.
--
-- The program is a freestanding C library for x86-64 Linux: no other library stands below it, and it
-- enters the kernel through its own system calls. The functions modelled here work on memory that the
-- caller owns, so the model starts with a byte-addressed memory.
--
-- Memory (Memory.antt, Memory/Block.antt, Memory/Bytes.antt, Memory/Text.antt): a memory maps an
-- address to the byte that stands there, or to nothing. A read or write of an address that is not
-- mapped is a fault. Pointers are addresses; arithmetic on them does not wrap, as in an object that C
-- can hold. `Holds` and `CString` say that a block of bytes or a NUL-terminated string stands at an
-- address. Results (Base/Outcome.antt): a run is a value, a fault, or the end of the fuel.
--
-- src/string.c: Str/Block.antt (memchr, memcmp, memset, memcpy, memmove), Str/Compare.antt (strcmp,
-- strncmp), Str/Scan.antt (strlen, strchr, strrchr, strspn, strcspn, strpbrk), Str/Copy.antt (strcpy,
-- strncpy, strcat, strncat), Str/Substring.antt (strstr), Str/Token.antt (strtok_r, its saved state
-- an address), Str/Dup.antt (strdup, over malloc). Loops with a count recur on it. Loops that end at
-- a NUL take fuel, one round for each byte; the theorems ask for more fuel than the string has bytes,
-- and so say that the loop ends. `char` is signed or not as the platform has it, which is the
-- argument `signed`. Bytes are numbers below 256. An increment of the `int` that the copies count with is a
-- fault where it overflows.
-- src/ctype.c: Ctype.antt, on every `int` (a ℤ); the int that a test returns is a Bool.
-- src/atoi.c: Atoi.antt. The bodies of the macros ATOI, STRTOL and STRTOUL take the limits of the
-- integer types as arguments, since the header that holds them is generated. An uintmax_t wraps
-- modulo 2 ^ 64; an intmax_t is a ℤ. errno is a part of the result.
-- src/search.c: Search/Queue.antt (insque, remque, on a heap of links), Search/Linear.antt (lfind,
-- lsearch), Search/Tree.antt (tfind, tsearch, tdelete, twalk, on a heap of nodes). The comparison
-- function is the caller's and an argument, and the laws that lsearch relies on are the record
-- ComparesBytes. Search/Tree/Shape.antt has the abstract trees and says which heap has one; tsearch
-- refines `insert` there, and tdelete `remove` of Search/Tree/Remove.antt. The
-- fuel of a search is more than the nodes of the tree. What stands in the block that tsearch gets of
-- calloc is an argument, since the calloc of src/malloc.c clears nothing; Malloc/Calloc.antt is about the
-- blocks that calloc gives.
-- src/stdlib.c: Stdlib/Sort.antt (qsort), Stdlib/Bsearch.antt (bsearch), Stdlib/Atexit.antt (atexit,
-- exit, quick_exit). An array is the list of its elements, and `swap`, which copies an element byte
-- by byte, exchanges two of them. The comparison is the caller's and an argument. The fuel of qsort
-- bounds the depth of its calls, which is at most the number of elements; bsearch halves a range that
-- is no longer than the array. The functions of the exit tables are values of any type, and a run of
-- exit is the list of those it calls.
-- src/file.c: File.antt (parse_mode, the flags of open, fopen, fclose). The result of malloc and the
-- open and close of the kernel are arguments. The loop of parse_mode takes more fuel than bytes.
-- src/printf.c: Printf.antt (the output of integers), Printf/Buffer.antt (write_str, the writer of
-- vsnprintf, and the NUL that ends its buffer), Printf/Spec.antt (vprintf_parse_spec, a function for
-- each stage), Printf/Convert.antt (vprintf_write_spec and the conversions), Printf/Shared.antt (the
-- loop over the format), Printf/Vsnprintf.antt, and Printf/Vfprintf.antt (write_fd over the write of
-- the kernel). A writer is a record of a state and a function on it, as `write_fn` is, and Output
-- adds the fields of vprintf_info that the conversions use. Printf/Field.antt describes the field
-- of an integer apart from the code, Printf/Integer.antt states the law of a writer that appends, and Printf/Shared/Pieces.antt that of one whose state has the memory and the
-- count. A format is there a list of pieces, literals and conversions with their arguments:
-- Printf/Spec/Render.antt gives the text of a conversion. An argument of a call with `...` is a
-- number or a pointer. A width and a precision are an int that is not negative, and the source adds
-- to them as a size_t, so a number models them exactly. The number of bytes written is returned as an
-- int, which `narrow` models. The loop takes a round of fuel for each byte of the format.
-- src/stdio.c: Stdio.antt (fread, fwrite, fgetc, fgets, fputc). The read and write of the kernel are
-- arguments, on a state of the kernel of any type; Stdio/Source.antt states the law of one that reads
-- from a source of bytes. The loop of fgets takes more fuel than the buffer has room.
-- src/spinlock.c: Spinlock.antt, as a step relation on the flag and the positions of the threads,
-- each step one atomic operation; src/mtx.c only calls it.
-- src/malloc.c and sbrk of src/unistd.c: Malloc.antt. The brk of the kernel is an argument, a
-- function on a state of the kernel and the memory, and Malloc/Heap.antt states its documented
-- behaviour as the record IsBreak, and which lists of blocks a memory has. A call is one step, under
-- the mutex.
-- src/threads.c: Threads.antt, the references of a thread object. The critical sections under its
-- spinlock are functions, and the steps of the thread and of its creator a relation. What happens
-- after a free, and a failed assertion, are faults.
-- src/syscall.c: Syscall.antt, on any raw call.
-- src/tls.c: Tls.antt (tss_create, tss_get, tss_set, tss_delete, the destructors at the end of a
-- thread). Each operation is one step under the mutex, on the table of keys and the values of one
-- thread. The blocks that malloc and calloc give, and what stands there, are an argument, and so is what a destructor does to the tables.
--
-- Base.antt and its children hold what all share: Boolean tests, lists by native numbers, signed
-- integers. Tests.antt and its children run the models on concrete memory and instantiate the
-- theorems.
--
-- Not modelled: strndup, the hash table, getenv, abs and div, fputs, the start of a thread, which
-- come next; the flag in vprintf_shared and the first initialisation of malloc, since a call is one
-- step here; signals, time and the other wrappers of kernel calls, and the assembly, which no theorem
-- of this library needs.
pub mod Base
pub mod Ctype
pub mod Memory
pub mod Atoi
pub mod Printf
pub mod Search
pub mod File
pub mod Spinlock
pub mod Stdio
pub mod Stdlib
pub mod Str
pub mod Tls
mod Tests
pub mod Threads
pub mod Malloc
pub mod Syscall
