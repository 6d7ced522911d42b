-- ===== src/Examples.antt =====
-- The theorems at concrete inputs, and runs of the code.
mod Bytes
mod Output
mod Memory
mod Tree
mod Board
mod Start
mod Nested
mod OneBlock
mod Nodes
