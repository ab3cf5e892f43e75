-- ===== src/Lib.antt =====
-- The ARINC-653 emulator (ACM-src): a partition runs its processes as threads, and the class APEX
-- offers them the services of the standard. The services look up a singleton partition and work on
-- the vectors of objects in it: events, blackboards, buffers, semaphores and processes.
--
-- The parts, the files that model them, and the code (paths below ACM-src/):
--   * Prelude, Types: shared names; signed integers of C without overflow (Prelude/Int); the
--     constants and enumerations of include/ACM/USER/APEX_TYPES.h.
--   * Time: the time stamps of include/ACM/USER/ACM_UTILITIES.h (addTime, addTimeNano,
--     subtractTime, compareTime and their kin). The loops that carry and borrow run on fuel, one
--     round more than the nanoseconds hold seconds, which is enough for every pair of normal time
--     stamps. A failed ACM_ASSERT is `none`.
--   * Blocking: calls that sleep on a condition variable. Such a call is given the wake-ups it gets,
--     each with the state that the other threads left; those of SUSPEND_SELF depend on the partition in
--     which the process falls asleep.
--   * Semaphore: the class SEMAPHORE of src/ACM_THREAD_SUPPORT.cc (wait, post, try_lock).
--     Semaphore/Counting lets any number of threads interleave.
--   * RwLock: the class RW_LOCK_SEM of include/ACM/INTERNAL/ACM_THREAD_SUPPORT.h, two semaphores. The
--     loop of writelock has MAX_READERS rounds. RwLock/Shared lets any number of threads interleave;
--     RwLock/Free has one writer and nobody else.
--   * Event: the class APEX_EVENT_TYPE of src/EVENT.cc.
--   * Buffer: the class APEX_BUFFER_TYPE of src/BUFFER.cc, a ring of slots between two semaphores.
--     Buffer/Shared lets any number of senders and receivers interleave. A copy out of bounds is
--     `none`.
--   * SamplingPort: the class SAMPLING_PORT_HELPER of src/SAMPLING_PORT.cc. The bytes of an integer are
--     a parameter (Words): how the machine lays out 64 bits, and that it reads back what it wrote.
--   * Partition: the state of a partition and the singleton, of include/ACM/INTERNAL/APEX.h.
--   * EventServices, BlackboardServices, BufferServices, SemaphoreServices, SamplingServices,
--     ProcessServices:
--     src/APEX_EVENT_SERVICES.cc, src/BLACKBOARD.cc with src/APEX_BLACKBOARD_SERVICES.cc,
--     src/APEX_BUFFER_SERVICES.cc, src/APEX_SEMAPHORE_SERVICES.cc, src/APEX_SAMPLING_SERVICES.cc, and
--     src/APEX_PROCESS_SERVICES.cc with what it uses of src/PROCESS.cc. They work on the partition of
--     Partition; a blackboard creates, sets and resets its event by the event services, and a
--     process its response board by the blackboard services. ProcessServices/Threads has the
--     threads of the processes: the identifier of a thread is a number in the descriptor, and the
--     cancelled thread runs its clean-up handler, which gives back its locks.
--   * Interface: the helpers of src/APEX_INTERFACE_IMPL.cc that take a process or an event by its name.
--   * HealthServices: src/APEX_HM_SERVICES.cc, with the buffers and the blackboards. How the compiler
--     lays out an error, and what reads the failed process from it, are parameters.
--   * TimeServices: src/APEX_TIME_MANAGEMENT_SERVICES.cc.
--   * Scheduling: the order by which the scheduler sorts the processes, of
--     include/ACM/INTERNAL/APEX.h, and what RunPartitionScheduler of src/APEX_SCHEDULING.cc does to
--     the processes (Scheduling/Steps). The services that it calls stand behind the interface
--     Reports, which Scheduling/Reporting fills with those of ProcessServices and HealthServices.
--     The loop that moves the next release past the critical time runs on fuel, two rounds more than
--     the nanoseconds between them, which is enough where the period is at least a nanosecond. A
--     failed assertion is `aborts` and an access out of bounds `faults`. Scheduling/Rounds has the wait
--     of the scheduler and its outer loop, over a list of the rounds that are looked at; std::sort is
--     a parameter.
--   * PartitionModes: the modes of the partition, of src/APEX.cc. What TERMINATE deletes is written to
--     afterwards, which is `faults`.
--   * ModuleManager: the module level, of ModuleManager/ModuleManager.cc, ModuleManager/ModuleScheduler.cc
--     and ModuleManager/ModuleInitialization.cc: the property file (Text, Settings), the check of the
--     schedule and the loops over the hyperperiods (Defs), the search for a port (Ports). What the loops
--     do is a list of actions; the number of hyperperiods that are looked at is an argument. The numbers
--     with a fraction are read by a parameter. The loop over the tokens of a line has a round for each
--     byte, which is enough, since each token takes one.
--   * StateMachine: the hierarchical state machines of StateMachine/src/StateMachine/StateMachine.cpp and
--     include/StateMachine/StateMachine.h. States, regions and transitions stand in lists, and pointers
--     are indexes. The program behind the interface DataSource is a parameter. The walks through the tree
--     run on fuel, a unit for each state on the way down, so that the height of the tree is enough. The
--     rounds of a step are bounded by an argument, since a program may raise events for ever.
--   * Tests: runs on concrete values.
--
-- Not modelled: threads, mutexes and condition variables of the platform (a section under a mutex is
-- one step), the clock (time stamps are arguments), log messages, identifiers that overflow,
-- STOP_SELF, whose assertion fails, and the parts of the program that do not appear above: queuing
-- ports, channels, the signals at the start of a partition, the start of the partitions as processes,
-- the sockets between modules, the logger and the demos.
pub mod Prelude
pub mod Types
pub mod Time
pub mod Blocking
pub mod Semaphore
pub mod RwLock
pub mod Event
pub mod Buffer
pub mod SamplingPort
pub mod Partition
pub mod EventServices
pub mod BlackboardServices
pub mod BufferServices
pub mod SemaphoreServices
pub mod SamplingServices
pub mod ProcessServices
pub mod Interface
pub mod HealthServices
pub mod TimeServices
pub mod Scheduling
pub mod PartitionModes
pub mod ModuleManager
pub mod StateMachine
pub mod Tests
