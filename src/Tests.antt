-- ===== src/Tests.antt =====
-- Concrete collaborators, and the theorems at concrete inputs.
mod Numbers
mod Servers
mod Keys
mod Batches
mod Loops
mod Messages
mod Leases
mod Windows
mod Access
mod KeyRecords
mod Nearby
mod Offers
mod Requests
mod Sockets
mod Loads
mod Maps
mod Services
