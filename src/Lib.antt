-- ===== src/Lib.antt =====
-- ApiScope traces the API calls of a Windows process. It consists of a tracer, the program
-- src/apiscope/, and of a hook library, src/apiscope-hooks/, which the tracer loads into the
-- traced process. The tracer debugs that process. As its modules are loaded, it overwrites the
-- first instructions of each chosen function by a jump to a handler of the hook library. The
-- handler builds a trace event from the arguments, calls the original through a trampoline, adds
-- the result and puts the event into a ring of shared memory. The tracer reads the ring, checks
-- each event, adds to it the path that a handle was opened with, and prints it.
--
-- The files, in the order in which the parts work together:
-- - Prelude and its children: lists, bytes and tests over the native numbers.
-- - Memory (src/apiscope/memory_utils.cpp): CustomStrCmp, CustomMemCmp, CustomMemCpy,
--   CustomMemSet.
-- - Protocol (src/include/trace_protocol.h): the layout of an event. An event is its header as a
--   record and its payload as 992 bytes.
-- - Registry (src/apiscope/hook_registry.cpp): the hooks that the hook library offers.
-- - Cli (src/apiscope/cli_options.cpp): Cli has the hooks and numbers of the command line,
--   Cli.Parse is ParseCommandLine and Cli.Quote is BuildWindowsCommandLine. Cli.Argv is the
--   documented way in which a program finds its arguments, as a specification.
-- - Process (src/apiscope/process_manager.cpp): GetRemoteExport, GetRemoteModuleName and
--   GetRemoteImageSize on the image of a module of the traced process, and IsRangeWithin.
-- - Hooks (src/apiscope/hook_manager.cpp and src/apiscope/instruction_decoder.cpp): HookFunction,
--   UnhookFunction and ReleaseUnloadedHook as functions of the state of the traced process, with
--   the size of the patch, the jump and the trampoline.
-- - Debug (src/apiscope/debug_session.cpp): the modules of the session, the functions that the
--   hooks name, over forwarders, and the hooks installed. Debug.Events has the loads and unloads
--   of modules, with ConfigureTransport of src/apiscope/trace_session.cpp.
-- - Transport (src/apiscope-hooks/trace_transport.cpp): InitializeTraceEvent, AppendTraceField and
--   the AddTrace functions; Transport.Capture has those that read memory.
-- - Handlers (src/apiscope-hooks/hooks/): the nine handlers, each as the event that it emits.
-- - Ring (src/include/trace_ring.h, EmitTraceEvent of src/apiscope-hooks/trace_transport.cpp and
--   TryReadRing of src/apiscope/trace_session.cpp): the ring, each function as one run that
--   nothing interrupts, with a bounded queue as specification.
-- - Ring.Threads: EmitTraceEvent on any number of threads beside ReaderLoop of
--   src/apiscope/trace_session.cpp, as a relation of steps. A step is one access of shared memory,
--   and steps of different threads come in any order.
-- - Renderer (src/apiscope/trace_renderer.cpp): Renderer.Parse has ParseTraceEvent and
--   IsValidTraceEvent, Renderer.Format the forms of values, Renderer.Text and Renderer.Jsonl the
--   two forms of an event. Renderer.Escape has a reader of JSON strings, as a specification.
-- - Session (src/apiscope/trace_session.cpp): the queue between ReaderLoop and WriterLoop, the
--   writer with RenderEvent, and the footer, as steps of three threads in any order. It puts
--   Renderer, Correlator and Stats together.
-- - Correlator (src/apiscope/trace_correlator.cpp): HandlePathTracker.
-- - Stats (src/apiscope/trace_stats.cpp): the counts of events and the lines that show them, with
--   durations and rates as the whole numbers to which the source rounds them.
-- - Encoding has no counterpart in the program: it is the wire format as a specification, a record
--   of two names and typed fields and the bytes that stand for it. The writer, the checker, the
--   ring and the correlator are each related to it, and so to one another.
-- - Tests: runs of the definitions and the theorems at concrete inputs.
--
-- A name follows the function that it models: has_trace_field is HasTraceField. A function that
-- changes an object through a pointer returns the object, with its result behind it. A pointer to
-- a string is none or its bytes, and an address is its number. A loop over a list or a count is
-- structural recursion, and three functions have a bound. The digits of a number (Stats) are at
-- most 20, which a 64-bit number does not exceed. The loop of CalculatePatchSize (Hooks) runs at
-- most 15 times, enough since each turn adds a byte or more towards the 14 of the patch.
-- ResolveExportAddress (Debug) goes to the source's own depth of 8. The retry of EmitTraceEvent is
-- a result of its own in Ring and a step in Ring.Threads; the wait of GetSystemTime100nsFast is a
-- result. Integers of the source are native numbers with their wrap-around written out; the 64-bit
-- positions of the ring are unbounded, since no run brings them to 2 ^ 63.
--
-- Parameters of the model are what the program asks of others: the memory that a read of the
-- traced process finds (Transport.Capture, Process), the calls of Windows that write, protect and
-- allocate it (Windows of Hooks, whose documented behaviour is IsDocumented of Hooks.Memory), the
-- Zydis decoder (Hooks), the image structures of winnt.h (ImageFormat of Process), the exports of
-- the loaded hook library (Registry), the thread, the time and the result of the original
-- (Handlers), whether the tracer's wake-up succeeds (Ring), and FileTimeToSystemTime and
-- WideCharToMultiByte (Renderer).
--
-- Not modelled: ReflectiveDLLInject and InjectDll, which map an image by calls of Windows; the
-- rest of EventLoop, which handles breakpoints, the stop and the exit, and the order of the calls
-- in CleanupRemote; Start, OpenOutput, Stop and the summary of the trace session; the count of
-- active calls in src/include/api_hook.h; the main program, handles and printing.
pub mod Prelude
pub mod Memory
pub mod Protocol
pub mod Transport
pub mod Renderer
pub mod Encoding
pub mod Correlator
pub mod Handlers
pub mod Registry
pub mod Ring
pub mod Stats
pub mod Cli
pub mod Process
pub mod Hooks
pub mod Debug
pub mod Session
mod Tests
