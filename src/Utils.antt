-- ===== src/Utils.antt =====
-- The helpers of cloudbaseinit/utils.
pub mod Retry
pub mod Dhcp
pub mod Hostname
pub mod Network
