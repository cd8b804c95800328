-- ===== src/Tests.antt =====
-- Concrete instances of the parameters, and runs of the theorems on them.
mod Libs
mod Decimals
mod Disks
mod Jsons
mod Matching
mod Requests
mod Entries
mod Servers
mod Endpoints
mod Handling
mod Writing
mod Memories
mod Racing
mod Starting
mod Returning
