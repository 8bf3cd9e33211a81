-- ===== src/Bitmap.antt =====
-- src/bitmap.rs: fields of 64 bits, chunks of eight fields, and the bitmap of chunks.
pub mod Field
pub mod Chunk
pub mod Map
pub mod Wide
pub mod Tests
