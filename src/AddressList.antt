-- ===== src/AddressList.antt =====
-- The address list of lab 1 (lab1/zad1/src/list_funs.c, list_structs.h): a doubly linked list of
-- persons on a heap. Memory holds the nodes and the commands on them, Functions and Sort the
-- functions of list_funs.c, Chain the list that a heap stands for; the other modules say what the
-- functions do.
pub mod Memory
pub mod Functions
pub mod Sort
pub mod Chain
pub mod Order
pub mod Append
pub mod Four
pub mod Partition
pub mod Permute
pub mod Join
pub mod Sorted
pub mod Cells
pub mod Quicksort
pub mod Total
pub mod Endless
pub mod Remove
pub mod Find
pub mod Tests
