-- ===== src/NoCloud.antt =====
-- The network configuration of cloudbaseinit/metadata/services/nocloudservice.py: the helpers that
-- the parsers of both formats use.
pub mod Common
pub mod Known
pub mod Bonds
pub mod V1
pub mod V2
pub mod Service
