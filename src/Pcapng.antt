-- ===== src/Pcapng.antt =====
-- The pcapng2parquet converter of examples/pcapng2parquet: a capture, read in bounded windows, becomes
-- a table of packets and one of each kind of protocol data unit.
pub mod Window
pub mod Delivery
pub mod Args
pub mod Blocks
pub mod Convert
pub mod Tables
pub mod Run
pub mod Loop
pub mod Slices
pub mod Packets
pub mod Scan
pub mod Complete
