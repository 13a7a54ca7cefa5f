-- ===== src/Deconz.antt =====
-- The crate deconz: the serial protocol of the Zigbee adapter.
pub mod Types
pub mod Errors
pub mod Wire
pub mod Parameters
pub mod Messages
pub mod Port
pub mod Protocol
pub mod Slip
pub mod Rx
pub mod Tx
pub mod Client
pub mod Aps
pub mod Exchange
pub mod System
pub mod Library
