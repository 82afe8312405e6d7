-- ===== src/Block.antt =====
-- src/virtio.cc: the virtio block device and the file behind it. The parent of its modules.
pub mod File
pub mod Request
pub mod Snapshot
pub mod Valid
mod Tests
