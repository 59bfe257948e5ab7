-- ===== src/Topology.antt =====
-- include/boost/job/topology.hpp: what is known of one logical processor. The functions that fill
-- it in, one for each platform, are the modules below.
pub mod Ids
pub mod Linux
pub mod Windows
mod Freebsd
mod Hpux
mod Solaris
use boost_job.Common.{ℕ, Option, none, List, []}

-- `none` stands for a member that the code has not written yet; a `std::set` is an ordered list.
pub record Topo : Type 0 where
  pub node_id : Option ℕ
  pub processor_id : Option ℕ
  pub l1_shared_with : List ℕ
  pub l2_shared_with : List ℕ
  pub l3_shared_with : List ℕ

-- `topo_t t;`
abbrev pub blank : Topo
blank = record {
  node_id = none;
  processor_id = none;
  l1_shared_with = [];
  l2_shared_with = [];
  l3_shared_with = [];
}
