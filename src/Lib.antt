-- ===== src/Lib.antt =====
-- SpyTester: a library that runs a program under test in a namespace of its own process, traces
-- its threads with ptrace, and gives a test breakpoints, watchpoints and redirected functions. The
-- modules stand for these parts of the code, and use each other as the parts do:
--
-- Tracer (include/Tracer.h, source/Tracer.cpp): `Tracer` is what a client sees of the tracing
--   thread, `command_ptrace`, `write_word` and `tkill` are commandPTrace, writeWord and tkill.
--   Tracer.Loop is the thread itself, `trace`, with the queue and the semaphore: `run` takes a
--   schedule, a list of actions of the clients, of the destructor and of the thread.
--   Tracer.Handshake has what comes before, createTracee against preStart and createMainThread,
--   by a schedule of their calls and outcomes.
-- CallbackHandler (include/CallbackHandler.h, source/CallbackHandler.cpp): the thread that runs
--   the callbacks of the test, as a step relation `Step` with reachability `Reach`; Context has
--   the queue as the other parts see it.
-- WatchPoint (include/WatchPoint.h, source/WatchPoint.cpp): `set` and `unset` on one of the four
--   slots of the debug registers, with the C arithmetic on `int` and on 64 bits written out.
-- SpiedThread (include/SpiedThread.h, source/SpiedThread.cpp): a traced thread with the cache of
--   its registers; SpiedThread.Event has handleEvent, backtrace, singleStep, stop, terminate and
--   detach, SpiedThread.Slots has createWatchPoint and deleteWatchPoint.
-- SpiedProgram (include/SpiedProgram.h, source/SpiedProgram.cpp): `listen` is listenEvent, the
--   loop over the statuses of waitpid, with `decode` for the status macros' use;
--   `resume_program`, `stop_program` and `terminate_program` are resume, stop and terminate;
--   SpiedProgram.Wrapping has wrapFunction. SpiedProgram.Launch has the constructor, over the
--   models of DynamicNamespace and of the tracer's start, and SpiedProgram.Ending has start and
--   the destructor. SpiedProgram.Relinking has relink, over the models of DynamicNamespace and
--   DynamicModule.
-- BreakPoint (include/Breakpoint.h, source/Breakpoint.cpp): `set`, `unset`, `resume_and_set` and
--   `resume_and_unset`. BreakPoint.Text is a memory under them whose queued writes the tracer
--   makes at any time.
-- Relinkage (include/Relinkage.h, source/Relinkage.cpp): `relink` is the constructor,
--   `invalidate` the invalidation and `write_relocations` writeRelocations.
-- ElfFile (include/ElfFile.h, source/ElfFile.cpp): `build` is the constructor, `get_dynamic`,
--   `get_sym_tab`, `get_dyn_sym_tab`, `get_str_tab`, `get_dyn_str_tab` and `get_rela` are the
--   getters, which keep what they read, and `read_section` is readSection; `get_table` is any of
--   the getters. ElfFile.Files has getElfFile with the table of the files and their descriptors.
-- DynamicModule (include/DynamicModule.h, source/DynamicModule.cpp): `get_symbol` and
--   `get_dynamic_symbol` search the tables of an ElfFile, `iterate_over_relocations` calls a
--   callback on each relocation, and Relinkage gives it the callback `find_rela`.
--   DynamicModule.Links has relink, unrelink, the registration of relinkages with their
--   destinations, and the destructor; DynamicModule.Opening has the constructor, over
--   ElfFile.Files, and getMangledName.
-- WrappedFunction (include/WrappedFunction.h, include/Meta.h): the ten wrappers of a function
--   (`get_wrapper`, `release_wrapper`, `set_wrapper`, and `call_static` for the static wrappers),
--   and the object, `new`, `wrapping` and `destroy`.
-- DynamicNamespace (include/DynamicNamespace.h, source/DynamicNamespace.cpp): `start`, which lays
--   out the stack of the program under test. DynamicNamespace.Libraries has load, unload,
--   syncModules, iterateOverModule and isContaining. DynamicNamespace.Object has the
--   constructors, the destructor, loadExecutable and convertDynSymbolAddr.
-- Loader (source/Loader.cpp): `start` and `load`, the older way to start the program.
-- Logger (include/Logger.h, source/Logger.cpp): `prefix`, `info`, `error` and `fatal`, over what
--   the standard streams have taken.
-- SpyLoader (include/SpyLoader.h, source/SpyLoader.cpp): the namespace ids, reserveNamespaceId,
--   releaseNamespaceId and createSpiedNamespaces, with SpyLoader.Pool for what they promise, in
--   the bags of Base.Bags; SpyLoader.Keys has pthreadKeyCreate and pthreadKeyDelete;
--   SpyLoader.Wiring has the constructor (`make`), updateWrappedFunctions, ctypeInit and
--   initStaticTLS; SpyLoader.Current has getCurrentNamespace; SpyLoader.Initial has
--   SpyLoaderInitializer, with the rounds of createSpiedNamespaces over the constructor of
--   DynamicNamespace.
-- Base has the shared library names, lists, texts and words; Sample has the data that the tests
--   share.
--
-- Parameters. What ptrace and the kernel do with a request is the argument `exec`: it takes the
-- state of the traced process and a request to the new state and the reply. dladdr, mprotect, the
-- macros for wait statuses, the direct read of a word and the keys of libpthread are arguments
-- too; the law that is assumed of mprotect is the record IsMprotect. A file is the record
-- ElfFile.File of lseek and read, and Layout gives the structures of elf.h that bytes stand for;
-- of a file that can be read, the record IsFile says that it gives its contents. The constructor
-- of DynamicModule, the addresses of the static wrappers, the names in the link maps and, for
-- SpyLoader, the addresses of the symbols of libpthread and libc are arguments (the record
-- SpyLoader.Initial.Linker), as are dlopen, dlmopen, dlinfo, readlink and atoi where they are
-- called; so are, in DynamicModule.Links, the tables that the modules' files give. In
-- Tracer.Handshake the kernel's part is in the steps, as ptrace(2) and waitpid(2) describe it:
-- which calls stop a traced process, and what a wait waits for.
--
-- Choices. Outside Tracer.Loop and Tracer.Handshake a request is carried out where it is sent: all
-- requests go through one queue that is served in order. The futures that the code waits for are
-- then their values, and a future that it does not take stays marked as such. A wait on a
-- condition variable is given the events that arrive before its timeout, and is woken between
-- events only; an event is handled as a whole. A list of events or statuses is finite, so every
-- loop is structural recursion and there is no fuel; 14 rounds of a schedule are enough for the
-- start of the traced process, whose two sides have 14 stages between them, and four rounds with
-- two more for each command are enough for the end of the tracing thread, which takes two steps
-- for a command. In SpiedProgram.Relinking an exception of DynamicModule::relink is one that comes
-- before it has changed anything, and Loader.Agreement takes the end of the process in
-- loadExecutable and the return of load for the same. An address is a natural number, and a word
-- does not wrap at the end of the address space; what the code computes on 64 bits is reduced
-- modulo 2 ^ 64. Texts of log messages are left out, but for the module Logger. The frames that
-- `backtrace` prints are not followed: that loop reads memory, and changes nothing.
--
-- Not modelled: preload of source/Loader.cpp, which only starts a thread,
-- SpiedProgram::unwrapFunction, which does not compile when it is used, and the threads of the
-- program under test.
pub mod Base
pub mod BreakPoint
pub mod CallbackHandler
pub mod Context
pub mod DynamicModule
pub mod DynamicNamespace
pub mod ElfFile
pub mod Loader
pub mod Logger
pub mod Relinkage
pub mod Sample
pub mod SpiedProgram
pub mod SpiedThread
pub mod SpyLoader
pub mod Tracer
pub mod WatchPoint
pub mod WrappedFunction
