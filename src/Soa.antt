-- ===== src/Soa.antt =====
-- The struct-of-arrays front end (include/nanoarrow2parquet/soa.hpp). Fields, which C++ has as types,
-- are data; a field and an argument that do not fit, which C++ does not compile, give none.
pub mod Masks
pub mod Strings
pub mod Columns
pub mod Nodes
pub mod Writer
