-- ===== src/Examples.antt =====
-- Concrete inputs for the theorems that have conditions, one module for each part of the program.
mod Files
mod Loads
mod Vocabulary
mod Models
mod Texts
mod Threads
mod Blocks
mod Samples
mod Graphs
mod Predictions
mod Requests
mod Connections
mod Chats
mod Prints
