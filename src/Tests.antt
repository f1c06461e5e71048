-- ===== src/Tests.antt =====
-- Concrete inputs for the theorems: a processor on whole numbers, a ring on lists, and a server with
-- two rooms, two session slots and one game worker.
mod Values
mod Books
mod Parts
mod Net
mod Dirty
mod Load
mod Whole
mod Shown
mod Clients
