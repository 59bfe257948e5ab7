-- ===== src/Topology/Linux.antt =====
-- src/linux/topology.cpp: the processors that are online, their NUMA nodes, and with whom they share
-- caches, read from the files of /sys/devices/system/cpu.
pub mod Ranges
pub mod RoundTrip
pub mod Scan
pub mod Told
mod Iteration
mod Sample
mod Tests
