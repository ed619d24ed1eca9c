-- ===== src/Common.antt =====
-- lib/common.py: the helpers that the objects for pools, hosts, SRs and VMs share, and `Host.xe` of
-- lib/host.py, through which they all talk to XAPI.
pub mod Values
pub mod Waiting
pub mod Xe
pub mod Nodeids
mod Tests
