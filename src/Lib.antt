-- ===== src/Lib.antt =====
-- Verification library for libSystem and its dynamic linker (C and C++, for 32-bit ARM Linux).
--
-- The program is a Darwin-compatible C library over the Linux kernel, together with the linker that
-- presents itself to programs as libSystem.
--
-- LowLevelLock.antt and the files below it model core/LowLevelLock.c (`lll_lock`, `lll_lock_wait`,
-- `lll_trylock`, `lll_unlock`), the two macros of core/OSUAtomic.h that it uses
-- (`OSCompareAndExchangeInt`, `OSAtomicExchange`) and core/OSSpinLock.c. LowLevelLock.antt has the
-- functions for a caller that runs alone. LowLevelLock/Threads.antt has the same code for any
-- number of threads, one access to the lock word at a time; the kernel's `futex` is left open: a
-- call may sleep or return, and a sleeper may wake at any time.
-- LowLevelLock/Uninterrupted.antt has the schedules in which no thread runs while another is inside
-- the loop of `OSAtomicExchange`.
--
-- OsThread.antt and the files below it model core/OSThread.c. OsThread/Outcome.antt is the monad of
-- its functions: a call ends, waits for a lock that only another thread can free, or halts
-- (`OSHalt`); it makes the calls of `lll_lock` and `lll_unlock`. OsThread/Tls.antt has the keys of
-- thread-local storage, OsThread/Mutex.antt the mutexes, OsThread/Once.antt `pthread_once`,
-- OsThread/Attributes.antt the attributes and OsThread/Create.antt `pthread_create` and the
-- functions that identify threads. A pointer is a number, NULL is 0. `malloc`, `clone`, the size of
-- `OSThread` and two signatures of the SDK's headers are parameters. Functions that only call
-- `OSThreadNotImplemented`, the stubs of condition variables, and logging are left out.
--
-- Bounds and fuel: the loop of `OSAtomicExchange` takes a number of rounds, and two are enough
-- (LowLevelLock/Alone.antt); the loops over the table of thread-local storage run over its list.
--
-- MallocZone.antt models core/malloc_zone.c: the table of zones and the call of dlmalloc that each
-- zone function makes (`DlCall`); dlmalloc is a copy of another project and is not modelled.
--
-- Linker/Chain.antt models `initializeChain` of core/lnk.cpp with `Image::dependsOn` and
-- `Image::dependenciesInitialized` of core/lnk_image.cpp; Linker/Chain/Steps.antt has the lists it
-- works on, Linker/Chain/Passes.antt its passes, Linker/Chain/Acyclic.antt chains without cycles and
-- Linker/Chain/Cycles.antt rings. Its
-- jumps back to `run_init` take a number of passes: on chains without cycles one pass more than there
-- are ranks of images is enough.
--
-- Termios.antt and the files below it model core/darwin_ioctl.c with the constants of
-- core/linux_ioctl.h: Termios/Convert.antt the conversions of struct termios, Termios/Bridge.antt
-- `ioctl$BRIDGE$termios` and `ioctl$darwin`. A flag word is a function from bit numbers to bits, of
-- which the lowest 32 count. The constants of termios.h are in no file of the repository: they are
-- the parameter `Sdk`, and what a theorem needs of them (masks without common bits, different
-- indices) is a hypothesis. The system call is a parameter.
--
-- Memory.antt models core/mem.c and core/mmap.c, Unistd.antt the functions of core/unistd.c that do
-- more than pass their arguments on: `open` (here `open_file`), `usleep`, `sleep` and the offset of
-- `lseek64`. The system calls, and the constants of the SDK, are parameters; `usleep` runs over the
-- list of the kernel's answers.
--
-- Linker/Lookup.antt models `binary_search` and `binary_search_toc` of core/lnk_util.cpp, with the
-- sign of `strcmp` as a parameter; each loop takes a number of rounds, and one more than there are
-- symbols is enough.
--
-- Linker/Stream.antt models `read_uleb128` of core/lnk_util.cpp: a stream is the list of the bytes up to
-- its end, and its `Result` tells a value from `lnk::halt`, from a loop that was given too few rounds and
-- from an access that the code does not define. Linker/Stream/Encode.antt is the format that it reads,
-- and Linker/Stream/Ensures.antt the rules for results that the other parts of the linker share.
--
-- Linker/Trie.antt models `trie_walk` of core/lnk_util.cpp, and Linker/Trie/Tree.antt is the format: a
-- tree of names, and how it is laid out in bytes. A round of the walk follows an edge, so one round more
-- than the name has characters is enough. Linker/Export.antt models what core/lnk_macho.cpp makes of it:
-- `findExportedSymbolCompressed` and `exportedSymbolAddressCompressed`.
--
-- Linker/Resolve.antt models `findExportedSymbol` with its re-exports, the symbols and addresses of
-- images without LC_DYLD_INFO, and `resolve` of core/lnk.cpp over the chain as a list of images. The
-- calls for re-exported images are as deep as a parameter; where re-exports have no cycle, more than the
-- rank of each image is enough. Linker/Resolve/Reexports.antt has the images within reach of one.
--
-- Linker/Rebase.antt models `readRebase` of core/lnk_macho.cpp and `rebaseCompressed` of
-- core/lnk_bootstrap.cpp, two interpreters of one set of opcodes that differ in what they do on errors;
-- Linker/Bind.antt models `readBind`, `readLazyBind` and `readWeakBind`, and Linker/Bind/Apply.antt the
-- function `bind` that they call, with `resolve`; Linker/Bind/Chain.antt has `bindChain`. A round of
-- their loops takes a byte, so one round more than there are bytes is enough. Linker/Bind/Table.antt is
-- a table of bindings and its opcodes. The
-- opcodes themselves are not changed by the words that are written: the stream is read as a list. The
-- values of the opcodes, flags and types are those of mach-o/loader.h, which is in no file of the
-- repository: what decodes them is a parameter.
--
-- Linker/Mapping.antt models `MachObject::instantiateFromFile` with core/lnk_mm.cpp, as the list of the
-- calls of `mmap`; what such calls leave in memory is `content`, where those that core/mmap.c refuses for
-- their offset leave nothing. `round_page` is the host's: `Paging` has
-- what it promises. Linker/Commands.antt models `parseLoadCommands` and `processSections`, and
-- Linker/Commands/Initializers.antt `doInitialize`; their loops run over the list of the commands, as
-- many as the header counts. A string that is only compared is a data type of the values that it is
-- compared with. Linker/Classic.antt models `doRebase` and `classicRebase`, and Linker/Bootstrap.antt
-- what core/lnk_bootstrap.cpp does up to the call of `_main`.
--
-- Linker/Api.antt models core/lnk_api.cpp: the functions on the chain and the handlers;
-- Linker/Api/Handles.antt has `dlopen`, which calls `loadLibraryEx`, `doBindSymbols` and `doInitialize`,
-- and `dlsym`, which makes the search of `findExportedSymbol`.
--
-- Linker/Load.antt models `loadLibraryEx` of core/lnk.cpp with the commands of `parseLoadCommands` that
-- load further libraries. What `instantiateFromFile`, `init` and `doRebase` come to for a file are parameters
-- there: each may halt. Loads nest as deep as a parameter says; one more than the paths that are not
-- loaded yet is enough, also where libraries need each other. A path is a number, and opening a file is
-- a parameter; the arrays of an image's dependencies are taken to be large enough.
--
-- Linker/Classic/Binds.antt models `classicBindIndirect`, `classicBindExterns` and `doBindSymbols`, which
-- bind images with and without LC_DYLD_INFO. The tables of symbols are functions of the index.
--
-- Linker/Elf.antt models core/lnk_elf.cpp: `ElfObject::instantiateFromFile` with `parseDynamicSegment`
-- and `readReloc`. What the mapped image holds at an address is a parameter. Environ.antt models
-- `__findenv`, `_getenvp` and `getenv` of core/Environ.c; a string is the list of its bytes.
--
-- Linker/Main.antt models `_main` of core/lnk.cpp with `cas::init`, over the models of `loadLibraryEx` and
-- `initializeChain`: the steps behind loading, in their order. What `doBindSymbols`, `doInitialize` and
-- `init` come to are parameters: each may halt; the embedded runtime and the tests are taken to return.
-- Loads are as deep as a parameter says, and more than there
-- are paths is enough; the passes of `initializeChain` are enough with two more than there are ranks of
-- images. `argv` has room for 1024 entries. What `_main` reads for its log lines, at 0x80000000 and in a new
-- block, is left out.
--
-- Ctypes.antt models core/ctypes_non_inline.c: the search through the ranges of a locale and the functions
-- over it. The locale is a parameter; one round more than there are ranges is enough.
-- Termios/Terminal.antt models core/tty.c over `ioctl$darwin`. Stat.antt models darwin_stat.c and `ftok`;
-- the system calls are functions of their arguments.
--
-- Not modelled: the libraries copied from other projects (dlmalloc, compiler-rt, gdtoa, FreeBSD's
-- stdio, string, wide-character, regex and fts code, the time zone code, Apple's pthread files,
-- posix_spawn, acl and uuid code), assembly, and code that only passes its arguments to a system
-- call. Of the linker: initialisers that load or initialise images themselves.
pub mod Prelude
pub mod LowLevelLock
pub mod OsThread
pub mod MallocZone
pub mod Linker
pub mod Termios
pub mod Unistd
pub mod Memory
pub mod Environ
pub mod Ctypes
pub mod Stat
