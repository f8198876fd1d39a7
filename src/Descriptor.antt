-- ===== src/Descriptor.antt =====
-- The part of protobuf's FileDescriptorProto that the generators read. The records have the fields
-- that the tools access, under protobuf's names; the types and labels are the ones of its enums.
use yarf.Common.{List}
use yarf.Text.{Text}

pub data FieldType : Type 0 where
  type_double type_float type_int64 type_uint64 type_int32 type_fixed64 type_fixed32 : FieldType
  type_bool type_string type_group type_message type_bytes type_uint32 type_enum : FieldType
  type_sfixed32 type_sfixed64 type_sint32 type_sint64 : FieldType

pub data Label : Type 0 where
  label_optional label_required label_repeated : Label

pub record Field : Type 0 where
  pub name : Text
  pub label : Label
  pub kind : FieldType
  pub type_name : Text

pub record Message : Type 0 where
  pub name : Text
  pub field : List Field

pub record FileDescriptor : Type 0 where
  pub package_name : Text
  pub dependency : List Text
  pub message_type : List Message
