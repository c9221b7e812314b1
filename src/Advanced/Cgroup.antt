-- ===== src/Advanced/Cgroup.antt =====
-- S2-advanced/examples/cgroup: programs attached to a control group.
pub mod CgroupBpf
pub mod CgroupDevice
pub mod CgroupSock
pub mod CgroupSockAddr
pub mod CgroupSockopt
pub mod CgroupSysctl
pub mod CgroupSkb
