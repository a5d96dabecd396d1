-- ===== src/Examples.antt =====
-- The theorems at concrete inputs, one module for each part of the program.
mod Protocol
mod Execution
mod Queue
mod Devices
mod DedupSession
mod DedupStores
mod Store
mod Load
mod Options
mod Session
mod Layers
mod Kernel
mod Server
mod Streams
