-- ===== src/Tests/Malformed.antt =====
-- Frames that are cut short or carry an address of an unknown mode, and a reserved relationship.
use tophamm.Base.{ℕ, ◌≡◌, ◌++◌, refl, [], ◌∷◌, length, replicate, arith}
use tophamm.Base.Little.{to_le_bytes}
use tophamm.Outcome.{release, debug, ok, panic}
use tophamm.Deconz.Types.{ApsDataIndication, DestinationAddress, CommandId}
use tophamm.Deconz.Wire.External.{Byteorder, byteorder}
use tophamm.Deconz.Protocol.Response
use tophamm.Deconz.Protocol.Response.{from_frame}
use tophamm.Deconz.Protocol.Response.Encoding.{address_bytes, source_bytes}
use tophamm.Deconz.Protocol.Response.Framed.{frame_of}
use tophamm.Deconz.Protocol.Response.Cut.{cut_bytes, cut_body, from_frame-cut_body}
use tophamm.Deconz.Protocol.Response.Modes.{
  Unknown, in_source, unknown_command, unknown_bytes, from_frame-unknown,
}
use tophamm.Zdo.Protocol.{read_mgmt_lqi_response}
use tophamm.Zdo.Protocol.Encoding.{concat, neighbor_bytes}
use tophamm.Zdo.Protocol.Reserved.{reserved_bytes, read_mgmt_lqi_response_reserved}
use tophamm.Tests.Frames.{state}
use tophamm.Tests.Queries.{lamp, lamp-IsNeighbor, table}

instance abbrev cursor : Byteorder
cursor = byteorder

-- Of the four bytes of data, the last two are missing.
abbrev whole : ApsDataIndication
whole = record {
  destination_address = DestinationAddress.nwk (record { value = 0 });
  destination_endpoint = record { value = 0 };
  source_address = record { short = record { value = 0x1234 }; extended = record { value = 0x43 } };
  source_endpoint = record { value = 0 };
  profile_id = record { value = 0 };
  cluster_id = record { value = 0x8031 };
  asdu = 7 ∷ 8 ∷ 9 ∷ 10 ∷ [];
}

from_frame-cut_body_example :
    from_frame release
      (frame_of CommandId.aps_data_indication 3 0 (cut_body 31 state whole (7 ∷ 8 ∷ [])))
    ≡ ok (
        Response.aps_data_indication state
          (record whole { asdu = (7 ∷ 8 ∷ []) ++ replicate (length {A = ℕ} (9 ∷ 10 ∷ [])) 0 }))
unfolding cut_body cut_bytes to_le_bytes address_bytes source_bytes
from_frame-cut_body_example =
    from_frame-cut_body release 3 0 31 state whole (7 ∷ 8 ∷ []) (9 ∷ 10 ∷ []) (omega arith)
      (record {
        destination_address = omega arith;
        short = omega arith;
        extended = omega arith;
        profile_id = omega arith;
        cluster_id = omega arith;
        asdu = omega arith;
      })
      refl (omega arith)

-- The source of the indication has the mode of a short address only.
abbrev short_source : Unknown
short_source =
    in_source state (DestinationAddress.nwk (record { value = 0 })) 0 2 (0x34 ∷ 0x12 ∷ [])

from_frame-unknown_example :
    from_frame debug
      (frame_of (unknown_command short_source) 3 0 (to_le_bytes 2 8 ++ unknown_bytes short_source))
    ≡ panic
unfolding unknown_bytes to_le_bytes address_bytes
from_frame-unknown_example =
    from_frame-unknown debug 3 0 8 short_source (omega arith, omega arith) (omega arith)
      (omega arith)

-- A second neighbour with the relationship 5.
read_mgmt_lqi_response_reserved_example :
    read_mgmt_lqi_response
      (0 ∷ 1 ∷ 0 ∷ 2 ∷ concat neighbor_bytes (lamp ∷ []) ++ reserved_bytes lamp 0x51 [])
    ≡ panic
read_mgmt_lqi_response_reserved_example =
    read_mgmt_lqi_response_reserved table 2 lamp 0x51 [] (lamp-IsNeighbor, tt) (omega arith)
      lamp-IsNeighbor (omega arith) (omega arith)
