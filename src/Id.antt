-- ===== src/Id.antt =====
-- server/id: the allocators of identifiers.
pub mod Reusable
pub mod Codec
pub mod Allocator
mod Tests
