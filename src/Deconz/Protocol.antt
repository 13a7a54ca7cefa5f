-- ===== src/Deconz/Protocol.antt =====
-- deconz/src/protocol.rs.
pub mod Command
pub mod Fields
pub mod Request
pub mod Response
use tophamm.Base.{ℕ}

-- The bytes in front of the payload: command, sequence number, status and frame length.
abbrev pub header_len : ℕ
header_len = 5
