-- ===== src/WorkerThread.antt =====
-- The life of a worker thread as an object: include/boost/job/detail/worker_thread.hpp with its
-- reference count, src/detail/worker_thread.cpp with its destructor, and
-- include/boost/job/operation.hpp, by which a job reaches the worker thread that it runs on.
mod Counting
mod Race
mod Miscount
mod Current
mod Lifetime
mod Tests
use boost_job.Common.{
  ℕ, ◌+◌, ◌-◌, ◌%◌, ◌^◌, Bool, true, false, Option, none, some, List, [], ◌∷◌, ◌==◌, if◌then◌else◌,
}
use boost_job.Rendezvous
use boost_job.Topology.{Topo}
use boost_job.Scheduler
use boost_job.Scheduler.{
  Outcome, returned, aborted, undefined, ◌>>=◌, WorkerThread, Slots, Scheduler, Platform,
  shutdown_worker, worker_at,
}

-- A worker thread with its `use_count_`.
pub record Counted : Type 0 where
  pub use_count : ℕ
  pub thread : WorkerThread

-- What a release leaves: the object, its storage given back to a node after the destructor, or the
-- end of the program by an exception that leaves the destructor.
pub data Release : Type 0 where
  kept : Counted → Release
  freed : Option ℕ → Bool → Release
  terminated : Release

unfoldable pub intrusive_ptr_add_ref : Counted → Counted
intrusive_ptr_add_ref t = record t { use_count = (t.use_count + 1) % 2 ^ 64 }

-- `~worker_thread() noexcept` shuts the thread down; then the storage goes back to the node that was
-- read before. The flag tells whether the thread was still joinable when its object ended.
unfoldable pub destroy : Option ℕ → WorkerThread × Option ℕ → Release
destroy home (w, none) = freed home w.joinable
destroy home (w, some e) = terminated

-- What holders of a `ptr_t` do.
pub data Use : Type 0 where
  copies drops : Use

module _ (sys : Platform) (i : ℕ) where
  unfoldable pub intrusive_ptr_release : Counted → Release
  unfolding destroy
  intrusive_ptr_release t =
      let n = (t.use_count + 2 ^ 64 - 1) % 2 ^ 64 in
      if n == 0
      then destroy t.thread.topology.node_id (shutdown_worker sys i t.thread)
      else kept (record t { use_count = n })

  unfoldable pub use_counted : Use → Counted → Release
  unfolding intrusive_ptr_release
  use_counted copies t = kept (intrusive_ptr_add_ref t)
  use_counted drops t = intrusive_ptr_release t

  -- A sequence of uses; what comes after the end of the object is left.
  unfoldable pub run_uses : List Use → Release → Release
  unfolding use_counted
  run_uses [] r = r
  run_uses (u ∷ us) (kept t) = run_uses us (use_counted u t)
  run_uses (u ∷ us) (freed home j) = freed home j
  run_uses (u ∷ us) terminated = terminated

-- `worker_fn_` of an object, up to the call of the pool: the thread is pinned, and the thread's
-- `instance_` is set to `this`; a pointer stands for the object that it points to, of which only the
-- topology is read. An error of the pinning leaves the thread's function, which ends the program.
unfoldable pub worker_fn_ : Option ℕ → WorkerThread → Outcome (Option WorkerThread)
worker_fn_ none this = returned (some this)
worker_fn_ (some e) this = aborted

-- `worker_thread::instance`, from `instance_`, which is null on other threads.
unfoldable pub instance_of : Option WorkerThread → Outcome WorkerThread
instance_of none = aborted
instance_of (some w) = returned w

-- `this_worker::topology`.
unfoldable pub this_topology : Option WorkerThread → Outcome Topo
unfolding instance_of
this_topology p = instance_of p >>= λ w. returned w.topology

-- `this_worker::queue_at`: the worker thread whose queue is returned, if there is one. It is looked
-- up in the scheduler that `sched_` points to.
unfoldable pub this_queue_at : Option WorkerThread → Scheduler → ℕ → Outcome (Option WorkerThread)
unfolding instance_of
this_queue_at p s i = instance_of p >>= λ w. Scheduler.queue_at s i

-- `this_worker::submit`: the worker thread that gets the job, and the node of the job's memory.
unfoldable pub this_submit : Option WorkerThread → Outcome (WorkerThread × Option ℕ)
unfolding instance_of this_topology
this_submit p = instance_of p >>= λ w. this_topology p >>= λ t. returned (w, t.node_id)
