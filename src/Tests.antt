-- ===== src/Tests.antt =====
-- Runs of the models on concrete memory, and each theorem at an input.
mod Image
mod Block
mod Text
mod Numbers
mod Linear
mod Sorting
mod Streams
mod Output
mod Storage
mod Lines
mod Links
mod Locks
mod Formats
mod Trees
mod Join
mod Calls
mod Tokens
mod Heap
