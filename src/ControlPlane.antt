-- ===== src/ControlPlane.antt =====
-- src/ut_control_plane.c: the control plane, by parts.
pub mod Queue
pub mod Http
pub mod Callbacks
pub mod Service
pub mod Mapping
pub mod Lifecycle
pub mod System
