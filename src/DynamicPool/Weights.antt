-- ===== src/DynamicPool/Weights.antt =====
-- What a fiber counts for in the sums of the invariant.
use boost_job.Common.{ℕ, ◌≡◌, refl, if◌then◌else◌, arith}
use boost_job.DynamicPool.{
  Pc, created, blocked, holding, done, WorkerFiber, detach, wake_pc, wake, waiter,
}

abbrev pub waits_pc : WorkerFiber → ℕ
waits_pc f = waiter f.pc

-- Started and not ended.
abbrev pub live : Pc → ℕ
live created = 0
live done = 0
live _ = 1

abbrev pub is_active : WorkerFiber → ℕ
is_active f = live f.pc

-- Not ended.
abbrev pub there : Pc → ℕ
there done = 0
there _ = 1

abbrev pub is_there : WorkerFiber → ℕ
is_there f = there f.pc

-- Blocked or ended.
abbrev pub idle : Pc → ℕ
idle blocked = 1
idle done = 1
idle _ = 0

abbrev pub is_idle : WorkerFiber → ℕ
is_idle f = idle f.pc

abbrev pub held : Pc → ℕ
held (holding f) = 1
held _ = 0

abbrev pub is_holding : WorkerFiber → ℕ
is_holding f = held f.pc

abbrev pub is_late : WorkerFiber → ℕ
is_late f = if f.late then 1 else 0

-- Marked as terminated, or no longer joinable, before its end.
abbrev pub mismarked : WorkerFiber → ℕ
mismarked f = if f.terminated then there f.pc else (if f.joinable then 0 else there f.pc)

-- Not ended, and made before the queue was closed.
abbrev pub unfinished : WorkerFiber → ℕ
unfinished f = if f.late then 0 else there f.pc

-- `detach` changes no place, and `wake` only that of a blocked fiber.
pub mismarked-detach : (f : WorkerFiber) → mismarked (detach f) ≡ mismarked f
mismarked-detach f = ground arith

pub wake_all : (f : WorkerFiber) → waits_pc (wake f) ≡ 0
wake_all f = waking f.pc
  where
    waking : (pc : Pc) → waiter (wake_pc pc) ≡ 0
    waking pc = ground arith

pub wake-active : (f : WorkerFiber) → is_active (wake f) ≡ is_active f
wake-active f = waking f.pc
  where
    waking : (pc : Pc) → live (wake_pc pc) ≡ live pc
    waking pc = ground arith

pub wake-there : (f : WorkerFiber) → is_there (wake f) ≡ is_there f
wake-there f = waking f.pc
  where
    waking : (pc : Pc) → there (wake_pc pc) ≡ there pc
    waking pc = ground arith

pub wake-holding : (f : WorkerFiber) → is_holding (wake f) ≡ is_holding f
wake-holding f = waking f.pc
  where
    waking : (pc : Pc) → held (wake_pc pc) ≡ held pc
    waking pc = ground arith

pub wake-mismarked : (f : WorkerFiber) → mismarked (wake f) ≡ mismarked f
wake-mismarked f = ground (arith, wake-there f)

pub wake-late : (f : WorkerFiber) → is_late (wake f) ≡ is_late f
wake-late f = refl
