-- ===== src/Proto2bin.antt =====
-- tools/proto2bin.py: C++ structs with a binary packing, from the messages of a proto file.
pub mod Ctype
pub mod ReadProto
pub mod FieldOpt
pub mod Templates
pub mod GenCode
pub mod Spec
pub mod Clean
pub mod Refine
pub mod RefineFile
pub mod Filled
pub mod FilledFile
pub mod Files
pub mod Driver
mod DriverTests
mod Tests
