-- ===== src/Topology/Hpux/Tests.antt =====
-- Processors 0 and 4 on nodes 1 and 2.
use boost_job.Common.{
  ℕ, ◌≡◌, refl, true, none, some, List, [], ◌∷◌, map, ◌==◌, if◌then◌else◌, arith,
}
use boost_job.Topology.Hpux.{Mpctl, returned, cpu_topology}
use boost_job.Topology.Hpux.Chain.{entry, cpu_topology-Visits}

abbrev two : Mpctl
two = record {
  ccnuma_supported = true;
  first_spu = some 0;
  next_spu = λ i. if i == 0 then some 4 else none;
  ldom = λ i. if i == 0 then some 1 else some 2;
  errno = 5;
}

abbrev visited : List (ℕ × ℕ)
visited = (0, 1) ∷ (4, 2) ∷ []

cpu_topology-Visits_example : cpu_topology 2 two ≡ returned (map entry visited)
cpu_topology-Visits_example =
    cpu_topology-Visits two visited 2 refl (refl, refl, (refl, refl, refl)) (omega arith)
