-- ===== src/Tests/Fields.antt =====
-- Fields of the frames at concrete bytes.
use tophamm.Base.{◌≡◌, ◌++◌, [], ◌∷◌, Bytes, length, arith}
use tophamm.Outcome.{ok}
use tophamm.Deconz.Wire.External.{Byteorder, byteorder}
use tophamm.Deconz.Parameters.{Parameter, id, wire_len, read_parameter, write_parameter}
use tophamm.Deconz.Parameters.RoundTrip.{read_parameter-write_parameter}

instance abbrev cursor : Byteorder
cursor = byteorder

read_parameter-write_parameter_example :
    (bytes : Bytes) × (write_parameter (Parameter.channel_mask 0x0010_0000) [] ≡ ok ([] ++ bytes))
    × (length bytes ≡ wire_len (Parameter.channel_mask 0x0010_0000))
    × (read_parameter (id (Parameter.channel_mask 0x0010_0000)) (bytes ++ (9 ∷ []))
        ≡ ok (Parameter.channel_mask 0x0010_0000, 9 ∷ []))
read_parameter-write_parameter_example =
    read_parameter-write_parameter (Parameter.channel_mask 0x0010_0000) [] (9 ∷ []) (omega arith)
