-- ===== src/Virtio.antt =====
-- src/virtio.cc: the transport that all virtio devices of the plugin share.
pub mod Device
pub mod Config
pub mod Regs
pub mod Copy
pub mod Chain
pub mod Notify
pub mod Inv
pub mod Mmio
pub mod Base
mod Tests
