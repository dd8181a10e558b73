-- ===== src/Tokenizer.antt =====
-- The tokenizer, src/tokenizer: the map between bytes and printable characters (`ByteMap`), the trie
-- of special tokens (`Trie`), byte pair merging (`Merge`), and the tokenizer that uses them.
pub mod ByteMap
pub mod Trie
pub mod Merge
pub mod Pretokenize
pub mod State
