-- ===== src/Writer.antt =====
-- The writer object of src/writer.cpp: its state, its output stream, and the methods that write
-- pages. A method is an action on the state.
pub mod State
pub mod Columns
pub mod Batch
pub mod Footer
pub mod Api
pub mod Rules
pub mod Extents
pub mod Groups
pub mod Consistency
pub mod Close
pub mod Codec
pub mod Refusals
pub mod Outcome
pub mod Session
pub mod SchemaTree
pub mod FlatLevels
pub mod ListValues
pub mod Files
pub mod Bodies
