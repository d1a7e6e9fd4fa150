-- ===== src/Tests.antt =====
-- Runs of the code at concrete inputs, over a small YAML library.
pub mod Yaml
mod Trees
mod Files
mod Expand
mod Calls
pub mod Service
pub mod Clients
pub mod Loading
pub mod Getters
pub mod Lines
