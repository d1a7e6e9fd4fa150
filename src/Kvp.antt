-- ===== src/Kvp.antt =====
-- src/ut_kvp.c: key-value pair instances over YAML documents, by parts.
pub mod Key
pub mod Fyaml
pub mod Instance
pub mod Fields
pub mod Nodes
pub mod Bytes
pub mod Pattern
pub mod Download
pub mod Include
pub mod Open
