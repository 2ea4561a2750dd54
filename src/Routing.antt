-- ===== src/Routing.antt =====
-- The operations of the node: dht/go-libp2p-kad-dht/routing.go and lookup.go.
pub mod Values
pub mod Best
pub mod Responding
pub mod Quorum
pub mod Correcting
pub mod Storing
pub mod Putting
pub mod Sources
pub mod Seeking
pub mod Sought
pub mod SoughtAll
pub mod Providing
pub mod Lookups
pub mod Followed
