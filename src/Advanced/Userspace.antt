-- ===== src/Advanced/Userspace.antt =====
-- S2-advanced/examples/userspace: probes on functions of user programs.
pub mod Uprobe
pub mod Uretprobe
