-- ===== src/Topology/Solaris/Tests.antt =====
-- A root with two groups, each with memory and two processors.
use boost_job.Common.{ℕ, ◌≡◌, refl, true, false, some, List, [], ◌∷◌, not, ◌==◌, if◌then◌else◌}
use boost_job.Topology.Solaris.{Lgrp, returned, cpu_topology, explore, explore_each, entries}
use boost_job.Topology.Solaris.Groups.{Group, group, nil, cons, listing, Shows}

abbrev cpus_of : ℕ → List ℕ
cpus_of node =
    if node == 1 then 0 ∷ 1 ∷ [] else if node == 2 then 2 ∷ 3 ∷ [] else 0 ∷ 1 ∷ 2 ∷ 3 ∷ []

abbrev sys : Lgrp
sys = record {
  root = some 0;
  cpus = λ node. some (cpus_of node);
  has_memory = λ node. not (node == 0);
  children = λ node. some (if node == 0 then 1 ∷ 2 ∷ [] else []);
  errno = 0;
}

abbrev tree : Group
tree =
    group 0 false (0 ∷ 1 ∷ 2 ∷ 3 ∷ [])
      (cons (group 1 true (0 ∷ 1 ∷ []) nil) (cons (group 2 true (2 ∷ 3 ∷ []) nil) nil))

-- The tree is what this system shows, and the walk lists it.
tree-Shows : Shows sys tree
unfolding Shows
tree-Shows = (refl, refl, refl, ((refl, refl, refl, tt), ((refl, refl, refl, tt), tt)))

tree_listed : cpu_topology 3 sys ≡ returned (listing tree)
unfolding cpu_topology explore explore_each entries listing
tree_listed = refl
