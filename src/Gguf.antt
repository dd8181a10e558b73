-- ===== src/Gguf.antt =====
-- The GGUF loader, src/model_loader/gguf: the metadata types (`DType`), the bytes of the mapped file
-- (`Bytes`), one metadata value (`Value`), a metadata entry and a tensor entry (`Entry`), the loader
-- that walks the file (`Loader`), and what it tells of the file (`Info`).
pub mod DType
pub mod Bytes
pub mod Value
pub mod Entry
pub mod Loader
pub mod Info
