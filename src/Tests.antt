-- ===== src/Tests.antt =====
-- The theorems at concrete inputs.
mod Words
mod Marking
mod Collecting
mod Saving
mod Sweeping
mod Naming
mod Methods
mod Handles
mod Editing
mod Profiling
mod Allocating
mod Calling
mod Branching
mod Calculating
mod Dispatching
mod Jumping
mod Walking
mod Remembering
mod Bytes
mod Slots
