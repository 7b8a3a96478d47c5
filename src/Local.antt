-- ===== src/Local.antt =====
-- plugins/ipam/local: the address plugin that keeps its addresses in a file.
pub mod Store
pub mod Ipam
pub mod Host
