-- ===== src/External.antt =====
-- What the program calls and does not implement: floating point, absl's `btree_map`, QuickFIX
-- messages and moodycamel's queue, each as an interface with the laws that the program relies on, and
-- FTXUI's elements and components as the trees that the program builds of them.
pub mod Float
pub mod BtreeMap
pub mod Fix
pub mod CircularBuffer
pub mod ConcurrentQueue
pub mod Ftxui
