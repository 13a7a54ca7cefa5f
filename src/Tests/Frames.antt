-- ===== src/Tests/Frames.antt =====
-- Frames of the protocol at concrete requests and responses.
use tophamm.Base.{zero, suc, length, replicate, ℕ, ◌≡◌, refl, [], ◌∷◌, arith, false, true}
use tophamm.Outcome.{debug, ok, panic}
use tophamm.Deconz.Types.{Destination, ApsDataRequest, DeviceState, connected, ApsDataConfirm}
use tophamm.Base.Little.{to_le_bytes}
use tophamm.Deconz.Protocol.Command.{command_byte}
use tophamm.Deconz.Protocol.Response
use tophamm.Deconz.Protocol.Fields.State.{state_byte}
use tophamm.Deconz.Protocol.Fields.Address.{destination_bytes, address_bytes, mode_byte}
use tophamm.Deconz.Wire.External.{Byteorder, byteorder}
use tophamm.Deconz.Protocol.Request.{Request, into_frame, command_id}
use tophamm.Deconz.Protocol.Request.Payload.{IsRequest, payload}
use tophamm.Deconz.Protocol.Request.Frame.{
  request_frame, into_frame-request_frame, into_frame_overflow,
}
use tophamm.Deconz.Protocol.Response.{Response, from_frame}
use tophamm.Deconz.Protocol.Response.Encoding.{
  IsResponse, response_frame, response_body, confirm_bytes,
}
use tophamm.Deconz.Protocol.Response.Decoding.{from_frame-response_frame}

instance abbrev cursor : Byteorder
cursor = byteorder

abbrev pub read_table : ApsDataRequest
read_table = record {
  destination = Destination.nwk (record { value = 0x1234 }) (record { value = 0 });
  profile_id = record { value = 0 };
  cluster_id = record { value = 0x31 };
  source_endpoint = record { value = 0 };
  asdu = 9 ∷ 0 ∷ [];
}

abbrev pub state : DeviceState
state = record {
  network_state = connected;
  data_confirm = false;
  data_indication = true;
  data_request_free_slots = true;
  configuration_changed = false;
}

abbrev pub confirm : ApsDataConfirm
confirm = record {
  destination = Destination.nwk (record { value = 0x1234 }) (record { value = 0 });
  source_endpoint = record { value = 0 };
  status = 0;
}

read_table-IsRequest : IsRequest (Request.aps_data_request 5 read_table)
read_table-IsRequest = (
  omega arith,
  record {
    destination = (omega arith, omega arith);
    source_endpoint = omega arith;
    asdu = omega arith;
  },
)

into_frame-request_frame_example :
    into_frame debug (Request.aps_data_request 5 read_table) 3
    ≡ ok (request_frame (Request.aps_data_request 5 read_table) 3)
into_frame-request_frame_example =
    into_frame-request_frame debug (Request.aps_data_request 5 read_table) 3 read_table-IsRequest
      (omega arith)

-- The bytes of that frame.
sent :
    request_frame (Request.aps_data_request 5 read_table) 3
    ≡ 18 ∷ 3 ∷ 0 ∷ 24 ∷ 0 ∷ 17 ∷ 0 ∷ 5 ∷ 0 ∷ 2 ∷ 0x34 ∷ 0x12 ∷ 0 ∷ 0 ∷ 0 ∷ 0x31 ∷ 0 ∷ 0 ∷ 2 ∷ 0 ∷ 9
      ∷ 0 ∷ 4 ∷ 0 ∷ []
unfolding request_frame command_byte command_id payload destination_bytes address_bytes mode_byte
    to_le_bytes
sent = refl

-- With 65530 bytes of data the frame passes sixteen bits.
abbrev long : ApsDataRequest
long = record read_table { asdu = replicate 65_530 0 }

long-length : (n : ℕ) → length {A = ℕ} (replicate n 0) ≡ n
long-length zero = refl
long-length (suc n) = omega (arith, long-length n)

into_frame_overflow_example : into_frame debug (Request.aps_data_request 5 long) 3 ≡ panic
into_frame_overflow_example = into_frame_overflow 5 3 long (omega (arith, long-length 65_530))

-- A confirm response, of twelve bytes of payload.
abbrev pub confirmed : Response
confirmed = Response.aps_data_confirm state 5 confirm

pub confirmed-IsResponse : IsResponse confirmed
unfolding response_body confirm_bytes destination_bytes to_le_bytes
confirmed-IsResponse = record { fields = (omega arith, omega arith); fits = omega arith }

from_frame-response_frame_example : from_frame debug (response_frame confirmed 3 0) ≡ ok confirmed
from_frame-response_frame_example =
    from_frame-response_frame debug confirmed 3 0 confirmed-IsResponse

received :
    response_frame confirmed 3 0
    ≡ 4 ∷ 3 ∷ 0 ∷ 15 ∷ 0 ∷ 8 ∷ 0 ∷ 42 ∷ 5 ∷ 2 ∷ 0x34 ∷ 0x12 ∷ 0 ∷ 0 ∷ 0 ∷ []
unfolding response_frame response_body confirm_bytes destination_bytes address_bytes mode_byte
    to_le_bytes state_byte command_byte Response.command_id
received = refl
