-- ===== src/Deconz/Parameters/Identifier.antt =====
-- Identifiers of parameters and their bytes.
use tophamm.Base.{ℕ, ◌≡◌, ◌≢◌, refl, ◌⊎◌, inl, inr, ◌∷◌, [], Bytes, arith, ◌<◌}
use tophamm.Outcome.{ok, err, panic}
use tophamm.Deconz.Types.{ParameterId}
use tophamm.Deconz.Errors.{Result, error, unsupported_parameter}
use tophamm.Deconz.Wire.Reading.{Reads}
use tophamm.Deconz.Wire.Writing.{Appends}
use tophamm.Deconz.Wire.External.{Byteorder}
use tophamm.Deconz.Wire.Laws.{read_u8-Reads, write_u8-Appends}
use tophamm.Deconz.Parameters.{id_byte, id_of_byte, read_parameter_id, write_parameter_id}

pub id_byte-lt : (p : ParameterId) → id_byte p < 256
unfolding id_byte
id_byte-lt ParameterId.mac_address = omega arith
id_byte-lt _ = omega arith

id_of_byte-id_byte : (p : ParameterId) → id_of_byte (id_byte p) ≡ ok p
unfolding id_of_byte id_byte
id_of_byte-id_byte ParameterId.mac_address = refl
id_of_byte-id_byte _ = refl

-- A match either finds the parameter of the byte or reports the byte.
abbrev IsMatch : ℕ → Result ParameterId → Type 0
IsMatch b (ok p) = id_byte p ≡ b
IsMatch b (err e) = e ≡ error (unsupported_parameter b)
IsMatch b panic = ⊥

id_of_byte-IsMatch : (b : ℕ) → IsMatch b (id_of_byte b)
unfolding id_of_byte id_byte
id_of_byte-IsMatch b = ground arith

module _ ⦃bo : Byteorder⦄ where
  pub write_parameter_id-Appends :
      (p : ParameterId) → Appends (write_parameter_id p) (id_byte p ∷ [])
  unfolding write_parameter_id
  write_parameter_id-Appends p = write_u8-Appends (id_byte p) (id_byte-lt p)

  pub read_parameter_id-Reads : (p : ParameterId) → Reads read_parameter_id (id_byte p ∷ []) p
  unfolding read_parameter_id
  read_parameter_id-Reads p = record {
    run = λ rest. rw ((read_u8-Reads (id_byte p)).run rest, id_of_byte-id_byte p);
  }

  read_parameter_id_of :
      (b : ℕ) (rest : Bytes) (r : Result ParameterId)
      → id_of_byte b ≡ r
      → IsMatch b r
      → ((p : ParameterId) × (id_byte p ≡ b) × (read_parameter_id (b ∷ rest) ≡ ok (p, rest)))
        ⊎ (((p : ParameterId) → id_byte p ≢ b)
            × (read_parameter_id (b ∷ rest) ≡ err (error (unsupported_parameter b))))
  unfolding read_parameter_id
  read_parameter_id_of b rest (ok p) e m = inl (p, m, rw ((read_u8-Reads b).run rest, e))
  read_parameter_id_of b rest (err x) e m =
      inr (λ p h. cc (e, id_of_byte-id_byte p, h), rw ((read_u8-Reads b).run rest, e, m))
  read_parameter_id_of b rest panic e m = absurd m

  -- Reading a parameter's identifier from any byte either returns the one parameter that stands
  -- for the byte, and leaves the rest of the input, or, when no parameter does, reports the byte
  -- as an unsupported parameter.
  read_parameter_id_lem :
      (b : ℕ) (rest : Bytes)
      → ((p : ParameterId) × (id_byte p ≡ b) × (read_parameter_id (b ∷ rest) ≡ ok (p, rest)))
        ⊎ (((p : ParameterId) → id_byte p ≢ b)
            × (read_parameter_id (b ∷ rest) ≡ err (error (unsupported_parameter b))))
  read_parameter_id_lem b rest =
      read_parameter_id_of b rest (id_of_byte b) refl (id_of_byte-IsMatch b)
