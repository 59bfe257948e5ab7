-- ===== src/Lib.antt =====
-- boost.job: jobs run by fibers on worker threads that are pinned to the processors of a NUMA
-- machine. `cpu_topology` reads what processors there are; a `scheduler` starts one worker thread
-- for each; a job that is submitted for a processor goes into the queue of its worker thread, whose
-- master fiber runs a pool of worker fibers that take jobs out and execute them.
--
-- Common: lists, options and tests on numbers.
-- Work: include/boost/job/detail/work.hpp. A heap of work items with their reference counts. The
--   smart pointer of boost is a parameter, what it does to the heap are its laws.
-- Queue: include/boost/job/detail/queue.hpp. Head and tail pointers into that heap; every operation
--   runs under the mutex of the queue and is one step, and a wait is split at the condition
--   variable.
-- Worker: submission in include/boost/job/detail/worker_thread.hpp together with the body of the
--   worker fibers, against a first-in first-out buffer. A submission is one step with the end of its
--   temporary pointer, and shows the status of the push, which the code drops.
-- Rendezvous: include/boost/job/detail/rendezvous.hpp, src/detail/rendezvous.cpp.
-- StaticPool: include/boost/job/static_pool.hpp as a step relation over all fibers and those
--   outside. The queue is the buffer of Worker/Fifo here; signals wake any one waiter.
--   StaticPool/Executed follows what the fibers do with the jobs that they take.
-- DynamicPool: include/boost/job/dynamic_pool.hpp in the same way. The place of a new entry in the
--   map and the answer of `has_ready_fibers` are free in every step. The id of a new fiber is taken
--   to be one that the map does not have, so that no entry is overwritten.
-- Scheduler: include/boost/job/scheduler.hpp, src/scheduler.cpp and src/detail/worker_thread.cpp.
--   Assertions are on; refused memory and failing joins are parameters.
-- Machine: the worker threads of a scheduler together, each with a static pool, jobs that are
--   submitted to them, and the thread that runs `scheduler::shutdown`; the joins succeed.
-- WorkerThread: the reference count and the thread-local instance of
--   include/boost/job/detail/worker_thread.hpp, and include/boost/job/operation.hpp; WorkerThread/Race
--   splits the accesses to a count, and WorkerThread/Miscount goes on from there. The scheduler's
--   vector is the only holder of its worker threads when it ends.
-- Pinning: pin_thread of src/linux/pin.cpp, src/freebsd/pin.cpp, src/aix/pin.cpp,
--   src/solaris/pin.cpp and src/windows/pin.cpp. Their calls are parameters, with laws for Linux,
--   FreeBSD and Windows; on AIX and Solaris one call does it all.
-- Examples: the jobs of examples/fibonacci.cpp, and those of examples/dependent_jobs.cpp on as many
--   fibers as they take, so that what is said of them bounds what a run can do, and not how far it
--   comes in a pool with few fibers. Examples/Crew: examples/dependent_jobs_mt.cpp, two worker
--   threads with pools of a given size. Examples/PingPong: examples/ping_pong.cpp; the channel is a
--   parameter, with what is documented of it as a law. Examples/Synchronize:
--   examples/synchronize.cpp.
-- Text: `std::stoul` on a 64-bit machine.
-- Topology: include/boost/job/topology.hpp and, in Topology/Linux, src/linux/topology.cpp. The
--   files and the string algorithms of boost are parameters. The loop over a range of ids has a
--   fuel; 2 ^ 32 is enough for every range that ends below 2 ^ 32 - 1.
--   Topology/Windows: src/windows/topology.cpp; Topology/Windows/Enumerator walks the buffer of the
--   system with a fuel above the number of records. Topology/Freebsd, Topology/Hpux and
--   Topology/Solaris: topology.cpp of these systems. The fuel of their loops is enough above the
--   number of indices, from the number of processors, and from the number of locality groups.
-- Memory: include/boost/job/memory.hpp and include/boost/job/numa_fixedsize_stack.hpp over an
--   interface; Memory/Linux, Memory/Hpux and Memory/Windows are memory.cpp of these systems and
--   Memory/Malloc is src/memory.cpp, the system calls are parameters.
-- Callables are numbers, and what a job does when it runs is outside the model, as are
-- futures; only Examples says what some jobs do. Machine has no dynamic pools and no jobs that wait.
-- Not modelled: src/hpux/pin.cpp and src/aix/topology.cpp, which do not compile, what the main
-- functions of the examples do around their jobs, examples/topology.cpp, which prints, and
-- all.hpp, stack.hpp and the configuration headers, which have no behaviour.
pub mod Common
pub mod Work
pub mod Queue
pub mod Worker
pub mod Text
pub mod Topology
pub mod Rendezvous
pub mod StaticPool
pub mod DynamicPool
pub mod Examples
pub mod Scheduler
pub mod WorkerThread
pub mod Machine
pub mod Memory
pub mod Pinning
