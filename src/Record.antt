-- ===== src/Record.antt =====
-- src/record: the values of columns, their types, and their keys.
pub mod LogicalType
pub mod Value
pub mod KeyCodec
