-- ===== src/Lib.antt =====
-- CoreShift, a daemon that runs Android system tools for its clients, as a model of its source.
--
-- A client connects to a Unix socket. The socket server (src/mid_level/ipc.rs) decodes its request,
-- the router (src/mid_level/router.rs) turns it into an action, and the dispatcher
-- (src/core/mod.rs) hands the action to the modules that act on the execution state: admission and
-- timeouts (src/core/policy.rs), lifecycle, process, io and results (src/core/lifecycle.rs,
-- process.rs, io.rs, result.rs). What they emit is dispatched again, resolved to effects on
-- processes and descriptors, or answered to the client: the loop of src/lib.rs. The executor of
-- effects (src/runtime.rs) starts processes (src/low_level/spawn/mod.rs), signals them and polls them;
-- the output of a child is captured, and its input written, by the loops of src/low_level/io.
--
-- Files, and the code that they model:
--   Base          lists, options and numbers; HashMap as an association list, whose order stands
--                 for the order of iteration; Int, the 32-bit cast; Text, decimal digits
--   Core/Types    the types of src/core/mod.rs
--   Core/Admission, Core/Timeout
--                 AdmissionControlModule and TimeoutPolicyModule of src/core/policy.rs
--   Core/Lifecycle, Core/Process, Core/Io, Core/ResultStore
--                 the module of the same name: handle and handle_event
--   Core/Dispatcher
--                 Dispatcher::dispatch, dispatch_event and compute_timeout_ms of src/core/mod.rs
--   Core/Effects  Core::resolve_effects of src/core/mod.rs
--   Core/Machine  the dispatcher with its state, driven by any sequence of actions and events;
--                 Core/Machine/Stages, the life of one job as a relation of steps
--   LowLevel/Libc, LowLevel/Fd
--                 SysError of src/low_level/spawn/mod.rs; Fd of src/low_level/reactor/mod.rs
--   LowLevel/Io   BufferState, WriterState and DrainState of src/low_level/io
--   LowLevel/Spawn
--                 Process of src/low_level/spawn/mod.rs: waits and signals
--   LowLevel/Reactor
--                 Reactor of src/low_level/reactor/mod.rs: tokens, interest, the events of a wait, and
--                 the signal descriptor
--   LowLevel/Sys, LowLevel/Exec
--                 CancelPolicy, ProcessGroup and ExecContext of src/low_level/sys/mod.rs
--   LowLevel/Launch
--                 spawn_start of src/low_level/spawn/mod.rs with both backends in the parent;
--                 LowLevel/Launch/Child, the calls of the forked child; Launch/Closing,
--                 close_range_fast; Launch/Actions and Launch/Attributes, the file actions and the
--                 attributes of posix_spawn; Launch/Table, the kernel's table of descriptors, as an
--                 interface
--   LowLevel/Signals
--                 SignalRuntime of src/low_level/sys/mod.rs, over the kernel's side as an interface
--   LowLevel/WaitLoop, LowLevel/WaitLoop/Loop
--                 of wait_loop (src/low_level/spawn/mod.rs), what a round does about the deadline and
--                 the timeout of its poll; and the loop as a whole
--   LowLevel/Synchronous
--                 spawn of src/low_level/spawn/mod.rs
--   HighLevel     src/high_level/android.rs; Command::map_to_exec of api.rs
--   MidLevel/Router
--                 Router of src/mid_level/router.rs
--   MidLevel/Wire, MidLevel/Ipc
--                 decode_request and encode_response, and IpcModule, of src/mid_level/ipc.rs
--   Daemon        run_daemon of src/lib.rs, over any executor of effects that fills Daemon/Interface
--   Runtime       EffectExecutor of src/runtime.rs; Runtime/Executes fills the interface with it
-- The modules below each of these hold what is proved of it; Tests, ResultTests, TimeoutTests,
-- WaitLoopTests, LaunchTests, DescriptorTests and ExchangeTests hold runs on concrete inputs, PlainTable and
-- PlainSignals the concrete kernels that they use.
--
-- Conventions. A method that changes `self` or the state gives the new value back. `usize`, `u32`
-- and `u64` are natural numbers, with a wrap where the source wraps. An instant is a number of
-- nanoseconds, and each reading of the clock is an argument. The error numbers of libc and serde_json
-- are records of parameters. The kernel's side of a descriptor is an argument too: the bytes that
-- the peer supplies, and the answers to the coming system calls.
--
-- Fuel. The loops over a descriptor run on fuel, one more than the answers that the kernel is
-- described to give. Each round takes an answer, so the fuel does not run out before the answers do;
-- the results on returning and delivering state it. A result `none` says that the answers did.
-- The loop over the daemon's queue runs on one more than the weight of the queue, which every round
-- makes less; the wait loop runs as long as its answers are described.
--
-- Not modelled: the calls that open the daemon's socket (src/lib.rs); get_clk_tck
-- (src/low_level/sys/mod.rs) and Reactor::del (src/low_level/reactor/mod.rs), one system call each; the
-- capacity of a vector, which a list does not have; the src/*/mod.rs that only name modules.
pub mod Base
pub mod Core
pub mod LowLevel
pub mod HighLevel
pub mod MidLevel
pub mod Daemon
pub mod Runtime
