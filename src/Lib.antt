-- ===== src/Lib.antt =====
-- rtsc: components for synchronization in real-time programs, the Rust crate of this repository
-- (src/).
--
-- The crate's core is a channel, `BaseChannel` (src/base_channel.rs): a mutex over a storage and
-- two counts of handles, and two condition variables. It works over any `ChannelStorage`: the
-- standard `VecDeque` (src/channel.rs), or the policy deque (src/pdeque.rs, src/policy_channel.rs),
-- which may drop, replace or order values by the delivery policies that their type declares
-- (src/data_policy.rs), by hand or by the derive macro of rtsc-derive. `BaseChannelAsync`
-- (src/base_channel_async.rs) works over the same storages, and has queues of wakers in place of
-- plain waits. The mutex and the condition variable may be those of src/pi.rs.
--
-- The files:
--
-- - Prelude and its children: what all files share.
-- - Error: `Error` and `Result` of src/lib.rs.
-- - DataPolicy, DataPolicy/Text: src/data_policy.rs; policies, the trait as a record of functions,
--   their text form.
-- - Deque: src/pdeque.rs, one function for each method and macro; `try_push` and `get` take the
--   `Moment` of the call. The children are named for what they are about: Evict for the closures
--   that remove values, Verdict for what a push answers, Stored for what it leaves, Order and
--   Arrival for sorting, Kinds for single values, Get, and Kept for any sequence of calls.
-- - Storage: the trait `ChannelStorage` as a record, with both implementations; Storage/Laws has
--   what a channel relies on.
-- - BaseChannel: the methods of `ChannelInner` in rounds, from lock or wake-up to return or wait;
--   handles. BaseChannel/Tasks has the calls in progress and the notifications, BaseChannel/System
--   the steps of threads that share the channel; the other children are about all runs, but for
--   BaseChannel/Results, which is about single calls, and BaseChannel/Handles, which has the
--   handles as trait objects, and BaseChannel/Identity, which is about their equality.
-- - AsyncWakers: the queues of wakers that the `InnerData` of src/base_channel_async.rs keeps for
--   sends and for receives.
-- - AsyncChannel: the futures `Send` and `Recv` of the same file, their polls and drops, and the
--   drops of handles. AsyncChannel/Calls has the calls that try and that block, AsyncChannel/Tasks
--   the receives in progress, AsyncChannel/System the steps of futures and threads that share the
--   channel. Attached, Kept, KeptWakes, KeptCalls, Runs, Sends and Waiting are about whom wake-ups
--   reach. AsyncChannel/SendSystem has the same steps with the sends followed instead, each of
--   which may bring any value whenever it runs; Room, Freed and Space are about whom their wake-ups
--   reach. Fifo and Anytime are about the order of values, Anytime for polls at any time and timed
--   waits too, Stale about wakers that nobody waits for.
-- - Pi: the lock of src/pi.rs, one function for each atomic access; Pi/Kernel has what it relies on
--   in the futexes of the kernel, Pi/System the steps of threads, Pi/Condvar the condition
--   variable. Pi/Guards adds guards that move to other threads, and threads that end. Owned,
--   Exclusion and Handover are about all runs. Pi/Handshake has threads that wait for a flag with
--   the mutex and the condition variable together.
-- - Channel, ChannelAsync, PolicyChannelAsync: the constructors of src/channel.rs,
--   src/channel_async.rs and src/policy_channel_async.rs.
-- - Derive: the derive macro of rtsc-derive/src/lib.rs; Own, Tables and Panics are about what it
--   generates and refuses.
-- - HostSystem: src/system.rs, over a record of file operations; HostSystem/Restored is about what
--   a guard restores.
-- - ThreadRt: src/thread_rt; LinuxGnu, Heap, LinuxOther and Unsupported have the code of the
--   systems, over records of system calls and commands. Agree compares both kinds of Linux,
--   Permission is about who may call.
-- - PolicyChannel: the constructors of src/policy_channel.rs, and what expiry does to a channel.
-- - Semaphore: src/semaphore.rs; Semaphore/System runs threads over it.
-- - DataBuffer: src/buf.rs.
-- - TtlCell, DataCell: src/cell/ttlcell.rs and src/cell/datacell.rs; DataCell/System runs threads
--   over a cell.
-- - Coupler, TripleCoupler: src/cell/coupler.rs and src/cell/triplecoupler.rs.
-- - EventMap: src/event_map.rs; EventMap/History runs any calls.
-- - Time: src/time.rs and src/ops.rs.
-- - Tests: the theorems at concrete inputs. Tests/Crate runs the tests of the crate on the model:
--   Runs and Futures have the threads and the tasks of the tests of channels, and the other
--   children the tests.
--
-- Time: an operation reads the clock once, so `is_expired` answers the same throughout one call. A
-- moment also fixes how many values of a `VecDeque` are in its second slice, which the standard
-- library leaves open; a theorem that needs to know it has it as a hypothesis. After the rotation
-- the source asserts that there is one slice.
--
-- What other code is relied on: `sort_by` is stable; `VecDeque::with_capacity` reserves a capacity
-- that is a parameter, `allocated`; a condition variable wakes one waiter or all, as
-- src/condvar_api.rs says, chosen in any way, and nobody else, and a wait with a timeout may end at
-- any time. The futexes of the kernel (Pi/Kernel, and Pi/Guards for the end of a thread), the files
-- of parameters (HostSystem/Restored) and the commands of a system (ThreadRt/Agree) have the laws
-- that these files state. The counts of handles do not reach the limit of `usize`. A loop is a
-- recursion on the list that it shortens, and a loop around a wait is a sequence of steps. Two
-- loops run on fuel. The one that writes into a heap in steps of a page (ThreadRt/Heap) has the
-- size of the heap, since it advances by one or more. The one that skips missed ticks (Time)
-- advances with a positive period by one unit of time or more in each turn, so the units from the
-- due time to now, and two more, are enough.
--
-- Not modelled: what timeouts and early polls of receives do to wake-ups of receives, and those of
-- sends to wake-ups of sends, in the runs of an async channel (AsyncChannel/System and SendSystem),
-- but for AsyncChannel/Stale, which shows it on single runs; the tests of the crate in which many
-- threads contend for a lock, a condition variable or the semaphore; the texts of warnings and of
-- errors from other crates, but for those that the code chooses; the parsing and the quoting of
-- Rust code by the derive macro.
pub mod Prelude
pub mod Error
pub mod DataPolicy
pub mod Deque
pub mod Storage
pub mod BaseChannel
pub mod PolicyChannel
pub mod AsyncWakers
pub mod AsyncChannel
pub mod Channel
pub mod ChannelAsync
pub mod PolicyChannelAsync
pub mod Pi
pub mod Derive
pub mod HostSystem
pub mod ThreadRt
pub mod Semaphore
pub mod DataBuffer
pub mod TtlCell
pub mod EventMap
pub mod Time
pub mod DataCell
pub mod Coupler
pub mod TripleCoupler
pub mod Tests
