-- ===== src/Proto2obj4pb.antt =====
-- tools/proto2obj4pb.py: C++ structs that are copied to and from protobuf's classes. Its functions
-- read_proto, find_field_opt and prototype2ctype are the ones of tools/proto2bin.py, letter by letter.
pub mod Templates
pub mod Reading
pub mod GenCode
pub mod GenFile
pub mod Driver
mod Spec
mod Files
mod Tests
mod DriverTests
