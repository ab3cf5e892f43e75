-- ===== src/Tests.antt =====
-- Runs of the model on concrete values, at which the theorems apply.
mod Times
mod Semaphores
mod Events
mod Buffers
mod Boards
mod Processes
mod Locks
mod BufferCalls
mod Schedules
mod SemaphoreCalls
mod Sampling
mod Rounds
mod Machines
mod Modules
