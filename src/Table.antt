-- ===== src/Table.antt =====
-- crawler/net/discovery/table/table.go, the Kademlia table of known nodes. State has its records and
-- constants, Lists the helpers on node lists, Buckets what is done to one bucket, Ops the methods of
-- the table; the other children prove.
pub mod State
pub mod Lists
pub mod Buckets
pub mod Ops
pub mod Distinct
pub mod Frame
pub mod Addresses
pub mod Limits
pub mod Bounds
pub mod Shape
pub mod Verified
pub mod Steps
pub mod Life
pub mod Find
pub mod Loop
pub mod Random
pub mod Sample
mod Tests
