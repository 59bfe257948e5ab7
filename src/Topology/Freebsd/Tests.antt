-- ===== src/Topology/Freebsd/Tests.antt =====
-- Processors 0 and 1 of two.
use boost_job.Common.{
  ℕ, suc, zero, ◌-◌, ◌^◌, ◌<◌, ◌≡◌, refl, ◌⊎◌, inr, some, replicate, ltb, if◌then◌else◌, arith,
}
use boost_job.Topology.Freebsd.{Cpuset, Calls, returned, cpu_topology}
use boost_job.Topology.Freebsd.Ones.{entry_one, count_from, cpu_topology-ones}

abbrev two : Cpuset
two = record { isset = λ i. if ltb i 2 then 1 else 2 ^ 32 - 1 }

two-answers : (i : ℕ) → i < 2 → (two.isset i ≡ 0) ⊎ (two.isset i ≡ 1)
two-answers zero h = inr refl
two-answers (suc zero) h = inr refl
two-answers (suc (suc i)) h = absurd (omega arith)

-- The state counts the sets.
abbrev calls : Calls ℕ
calls = record {
  cpuset_create = λ s. (some 4096, suc s);
  cpuset_zero = λ a s. s;
  pthread_getaffinity_np = λ a s. (0, s);
  content = λ a s. two;
  cpuset_destroy = λ a s. s - 1;
  errno = λ s. 12;
}

cpu_topology-ones_example :
    cpu_topology 10 calls 5 ≡ (returned (replicate (count_from two 2 0) entry_one), 5)
cpu_topology-ones_example =
    cpu_topology-ones calls 10 2 4096 5 6 6 refl refl two-answers refl (omega arith)
