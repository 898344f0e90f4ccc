-- ===== src/VirtualGoods.antt =====
-- src/modules/virtual_goods: the orders of virtual goods and the callbacks that the platform sends
-- about them. The proofs stand in the modules named for what they prove.
mod Tests
pub mod Status
pub mod Rows
pub mod Orders
pub mod Exceptions
pub mod Callbacks
pub mod Mappings
pub mod Signing
pub mod Process
pub mod Ingress
pub mod Scheduler
