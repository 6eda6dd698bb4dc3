-- ===== src/Lib.antt =====
-- PHM, platform health management: a daemon's library that watches supervised entities (processes)
-- through monitors, keeps a debounced state machine for each, and tells the rest of the platform.
--
-- How the parts interact. The engine (src/phm_engine.cpp) owns the entities
-- (src/state_machine.cpp) and, on each tick, asks every entity to check its monitors
-- (src/monitors). A monitor looks at the operating system (src/platform) or at the health channel
-- (src/health_channel.cpp) that the supervised process writes, and may answer with an event. The
-- entity counts the events of each source against the debounce count of its configuration and
-- moves its state; each move calls the engine back. The event manager (src/event_manager.cpp) and
-- the alert aggregator (daemon/alert_aggregator.cpp) keep events for the clients. The entities
-- come from a configuration file (src/config_parser.cpp), and monitors are made by type by a
-- registry (src/monitor_framework.cpp). What the monitors have measured goes to files
-- (src/data_reporter.cpp). The daemon (daemon/daemon.cpp) runs an engine, turns signals into a
-- reload or the end, and serves the clients of its IPC server (daemon/ipc_server.cpp). A supervised
-- process may measure itself and report to its health channel (src/client_resource.cpp).
--
-- Which file models which part:
--   Types            include/faw/phm/types.h
--   Channel          src/health_channel.cpp, with its theorems in Channel/Heartbeat (report and
--                    isAlive) and Channel/Metrics (reportMetrics and getMetrics)
--   Monitor          include/faw/phm/monitor.h: the interface IMonitor as a record of operations, and
--                    the law that a monitor keeps its name
--   Monitors         Monitors/Surroundings (what the platform, the clocks and the health channel
--                    answer during one call), Monitors/Lifecycle, Resource, Deadlock and Alive (the
--                    files of src/monitors), each with its theorems in Reports; Monitors/Builtin is
--                    the dynamic dispatch over the four, and fills the interface
--   Entity           src/state_machine.cpp and include/faw/phm/supervised_entity.h, with the calls of
--                    an owner in Entity/Calls; its theorems are in Entity/Transitions (the diagram
--                    of states), Entity/Events (sequences of onMonitorEvent), Entity/Debounce
--                    (bursts and recovery), Entity/Counters (the bound of the counters),
--                    Entity/Monitors (names and sweeps), Entity/Reach (all calls of an owner, in
--                    any order) and Entity/Restart (reset, then start)
--   EventManager     src/event_manager.cpp, with its theorems in EventManager/Queue
--   AlertAggregator  daemon/alert_aggregator.cpp, with its theorems in AlertAggregator/Suppression
--   Engine           src/phm_engine.cpp, with start, stop and the tick in Engine/Run and
--                    collectAndReport in Engine/Collect, a round with its reports in
--                    Engine/Collect/Ticks, and the worker among the threads that call the engine in
--                    Engine/Threads; its theorems are in Engine/Lock (calls that lock the mutex
--                    twice), Engine/Free (calls that leave it free),
--                    Engine/GlobalState (the global state and the tick), Engine/Registry (the
--                    entities by name), Engine/Loaded (what a file leaves),
--                    Engine/Collect/Running (the metric running), Engine/Threads/Joins (stop and the
--                    worker), Engine/Threads/Ends (the end of the worker), Engine/Threads/Races (what threads do to one another) and
--                    Engine/Threads/Agrees (the rounds of one thread and of the worker)
--   Config           src/config_parser.cpp, with its theorems in Config/Names (the types by name)
--                    and Config/Accepts (what an accepted configuration looks like)
--   Factory          src/monitor_framework.cpp and the registrations at the end of the files of
--                    src/monitors, with its theorem in Factory/Builtins
--   Detection        an entity and a lifecycle monitor together: what sweeps make of an exit
--   Ipc              daemon/ipc_server.cpp, with what it reads and writes in Ipc/Wire; its theorems
--                    are in Ipc/Requests (what is read of a request), Ipc/Answers (which requests
--                    are answered) and Ipc/Lookups (get_entity)
--   Reporter         src/data_reporter.cpp, with ensureDir and the names of files in
--                    Reporter/Directories; its theorems are in Reporter/Directories/Ensured and
--                    Reporter/Files (where the lines of a batch go)
--   Linux            src/platform/linux/process_linux.cpp, with the count of open files in
--                    Linux/Descriptors, startProcess in Linux/Spawn and readProcStat with its fscanf in
--                    Linux/Stat; its theorems are in Linux/Processes (getProcessId), Linux/Waiting
--                    (waitProcess), Linux/Usage (getCpuUsage), Linux/Stat/RoundTrip (readProcStat) and,
--                    with the lifecycle monitor on top, Monitors/Lifecycle/LongNames
--   Qnx              src/platform/qnx/process_qnx.cpp, with its theorem in Qnx/Waiting (waitProcess)
--   Platform         src/platform/pal.cpp and include/faw/phm/platform.h: the operations that the
--                    monitors call, as each build has them; its theorem is in Platform/Names
--   Logger           src/logger.cpp
--   ResourceReporter src/client_resource.cpp, with its theorem in ResourceReporter/Judged
--   Daemon           daemon/daemon.cpp, with the log file, daemonize and the PID file in
--                    Daemon/Process; its theorems are in Daemon/Startup, Daemon/Shutdown and
--                    Daemon/Process/Logs (where the log goes)
--   Main             daemon/main.cpp, with its theorems in Main/Idle (no entity is enabled) and
--                    Main/Stuck (an entity is enabled)
--   Base             texts as lists of bytes, dictionaries in the order of std::map, outcomes that may
--                    fail or throw, the searches of std::string, decimal digits, and lemmas on them; no
--                    code of the repository
--   Tests            the theorems at concrete inputs
--
-- How the code is read. A record stands for each class and a function for each operation: the
-- object goes in, and comes out changed. A call that invokes a callback returns the invocations in
-- order. A call that may never return or may be undefined has an Outcome, done or failed with the
-- reason: a null pointer, std::deque::pop_front on an empty deque, or a std::mutex that its own
-- thread locks again. A call that may throw returns a value or the text of the exception. An
-- uint32_t or uint64_t that is computed wraps by an explicit remainder; a duration and a time
-- point are numbers of milliseconds. A double is a value of any type with the operations of
-- Types.Doubles. A loop over a container runs over the list that is there when it begins, and
-- needs no fuel. Two routines have fuel: ensureDir, which calls itself on a shorter path, with the
-- length of the path and one more, and the polls of waitProcess, with one for every ten
-- milliseconds of the timeout and one more; both are shown to be enough. The daemon's main loop is
-- followed for as many turns as inputs are given.
--
-- Parameters. The JSON library is the record Config.Json of what the parser asks of it, and
-- Reporter.JsonWriter of what the data reporter asks. The file system is the record
-- Reporter.Directories.FileSystem; what POSIX says of mkdir is the law MakesDirectories. What
-- system calls answer is an argument of the call that makes them; that the kernel keeps fifteen
-- bytes of the name of a process is Linux.Processes.KeepsFifteen, and that sleep_for sleeps is
-- Linux.Waiting.SleepsTen; that open gives the lowest free descriptor is
-- Logger.OpensLowest. Doubles are a type with the operations of Types.Doubles, and a share in
-- per cent is a function percent of the two numbers, as load is for the load of the system.
--
-- Threads. An engine is a value in one thread in Engine and Engine/Run. In Engine/Threads its
-- entities are shared objects under addresses, and a run is a sequence of steps of the worker and of
-- n calling threads: one step is one critical section of the mutex, one test of running_, or what
-- the worker does with one entity.
--
-- Not modelled: input and output as such (sockets, the mapping of shared memory, what a started
-- program does), two threads inside one entity at once, which is a data race of the C++ program, the
-- ticks of the engine during the daemon's main loop, the log lines that the other parts write, and the
-- copy of the JSON library in third_party.
pub mod Base
pub mod Types
pub mod Channel
pub mod Monitor
pub mod Entity
pub mod Monitors
pub mod EventManager
pub mod AlertAggregator
pub mod Engine
pub mod Config
pub mod Factory
pub mod Detection
pub mod Ipc
pub mod Reporter
pub mod Linux
pub mod Logger
pub mod Platform
pub mod Qnx
pub mod ResourceReporter
pub mod Daemon
pub mod Main
mod Tests
