-- ===== src/Deconz/Wire/Laws.antt =====
-- What the integers of the wire read and write: every read takes back what the write of the same
-- type appends, and fails on an input that ends too early.
use tophamm.Base.{ℕ, ◌^◌, ◌<◌, ◌≡◌, ap, ◌∙◌, [], ◌∷◌, ◌++◌, Bytes, arith, IsU8, IsU16, IsU32, IsU64}
use tophamm.Base.Little.{to_le_bytes, from_le_bytes, length-to_le_bytes, from_le_bytes-to_le_bytes}
use tophamm.Outcome.{ok, err, map_err}
use tophamm.Deconz.Errors.{unexpected_eof, from_io}
use tophamm.Deconz.Wire.Reading.{Reads}
use tophamm.Deconz.Wire.Writing.{Appends}
use tophamm.Deconz.Wire.External.{Byteorder}
use tophamm.Deconz.Wire.{
  read_u8, read_u16, read_u32, read_u64, write_u8, write_u16, write_u32, write_u64,
}

module _ ⦃bo : Byteorder⦄ where
  read_uint-to_le_bytes :
      (width v : ℕ) (rest : Bytes)
      → v < 256 ^ width
      → bo.read_uint width (to_le_bytes width v ++ rest) ≡ ok (v, rest)
  read_uint-to_le_bytes width v rest h =
      let whole = bo.read_whole (to_le_bytes width v) rest in
      rw (length-to_le_bytes width v, from_le_bytes-to_le_bytes width v h) at whole

  pub read_u8-Reads : (b : ℕ) → Reads read_u8 (b ∷ []) b
  unfolding read_u8 from_le_bytes
  read_u8-Reads b = record {
    run = λ rest.
        ap (map_err from_io) (bo.read_whole (b ∷ []) rest)
        ∙ ap (λ (v : ℕ). ok (v, rest)) (omega arith);
  }

  pub read_u16-Reads : (v : ℕ) → IsU16 v → Reads read_u16 (to_le_bytes 2 v) v
  unfolding read_u16
  read_u16-Reads v h = record {
    run = λ rest. ap (map_err from_io) (read_uint-to_le_bytes 2 v rest h);
  }

  pub read_u32-Reads : (v : ℕ) → IsU32 v → Reads read_u32 (to_le_bytes 4 v) v
  unfolding read_u32
  read_u32-Reads v h = record {
    run = λ rest. ap (map_err from_io) (read_uint-to_le_bytes 4 v rest h);
  }

  pub read_u64-Reads : (v : ℕ) → IsU64 v → Reads read_u64 (to_le_bytes 8 v) v
  unfolding read_u64
  read_u64-Reads v h = record {
    run = λ rest. ap (map_err from_io) (read_uint-to_le_bytes 8 v rest h);
  }

  pub read_u8-nil : read_u8 [] ≡ err (from_io unexpected_eof)
  unfolding read_u8
  read_u8-nil = ap (map_err from_io) (bo.read_short 1 [] (omega arith))

  pub write_u8-Appends : (v : ℕ) → IsU8 v → Appends (write_u8 v) (v ∷ [])
  unfolding write_u8 to_le_bytes
  write_u8-Appends v h w =
      ap (map_err from_io) (bo.write_appends 1 v w) ∙ ap (λ (b : ℕ). ok (w ++ b ∷ [])) (omega arith)

  pub write_u16-Appends : (v : ℕ) → Appends (write_u16 v) (to_le_bytes 2 v)
  unfolding write_u16
  write_u16-Appends v w = ap (map_err from_io) (bo.write_appends 2 v w)

  pub write_u32-Appends : (v : ℕ) → Appends (write_u32 v) (to_le_bytes 4 v)
  unfolding write_u32
  write_u32-Appends v w = ap (map_err from_io) (bo.write_appends 4 v w)

  pub write_u64-Appends : (v : ℕ) → Appends (write_u64 v) (to_le_bytes 8 v)
  unfolding write_u64
  write_u64-Appends v w = ap (map_err from_io) (bo.write_appends 8 v w)
