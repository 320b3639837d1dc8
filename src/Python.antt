-- ===== src/Python.antt =====
-- The Python bindings of bindings/python/src: Arrow data from Python objects, the writer's functions and
-- class, and record batches of NumPy columns.
pub mod Capsule
pub mod Bindings
pub mod Streams
pub mod Objects
pub mod Numpy
pub mod Dtypes
pub mod Columns
