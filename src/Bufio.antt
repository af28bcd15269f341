-- ===== src/Bufio.antt =====
-- packages/bufio: reading and writing integers and bytes on buffers and streams.
pub mod Reader
pub mod VarInt
pub mod Writer
