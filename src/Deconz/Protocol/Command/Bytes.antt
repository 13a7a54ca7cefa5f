-- ===== src/Deconz/Protocol/Command/Bytes.antt =====
-- Commands and their bytes.
use tophamm.Base.{ℕ, ◌≡◌, ◌≢◌, refl, ◌⊎◌, inl, inr, ◌∷◌, [], Bytes, arith, ◌<◌}
use tophamm.Outcome.{ok, err, panic}
use tophamm.Deconz.Types.{CommandId}
use tophamm.Deconz.Errors.{Result, error, unsupported_command}
use tophamm.Deconz.Wire.Reading.{Reads}
use tophamm.Deconz.Wire.Writing.{Appends}
use tophamm.Deconz.Wire.External.{Byteorder}
use tophamm.Deconz.Wire.Laws.{read_u8-Reads, write_u8-Appends}
use tophamm.Deconz.Protocol.Command.{
  command_byte, command_of_byte, read_command_id, write_command_id,
}

pub command_byte-lt : (c : CommandId) → command_byte c < 256
unfolding command_byte
command_byte-lt CommandId.version = omega arith
command_byte-lt _ = omega arith

pub command_of_byte-command_byte : (c : CommandId) → command_of_byte (command_byte c) ≡ ok c
unfolding command_of_byte command_byte
command_of_byte-command_byte CommandId.version = refl
command_of_byte-command_byte _ = refl

-- A match either finds the command of the byte or reports the byte.
abbrev IsMatch : ℕ → Result CommandId → Type 0
IsMatch b (ok c) = command_byte c ≡ b
IsMatch b (err e) = e ≡ error (unsupported_command b)
IsMatch b panic = ⊥

command_of_byte-IsMatch : (b : ℕ) → IsMatch b (command_of_byte b)
unfolding command_of_byte command_byte
command_of_byte-IsMatch b = ground arith

module _ ⦃bo : Byteorder⦄ where
  pub write_command_id-Appends :
      (c : CommandId) → Appends (write_command_id c) (command_byte c ∷ [])
  unfolding write_command_id
  write_command_id-Appends c = write_u8-Appends (command_byte c) (command_byte-lt c)

  pub read_command_id-Reads : (c : CommandId) → Reads read_command_id (command_byte c ∷ []) c
  unfolding read_command_id
  read_command_id-Reads c = record {
    run = λ rest. rw ((read_u8-Reads (command_byte c)).run rest, command_of_byte-command_byte c);
  }

  read_command_id_of :
      (b : ℕ) (rest : Bytes) (r : Result CommandId)
      → command_of_byte b ≡ r
      → IsMatch b r
      → ((c : CommandId) × (command_byte c ≡ b) × (read_command_id (b ∷ rest) ≡ ok (c, rest)))
        ⊎ (((c : CommandId) → command_byte c ≢ b)
            × (read_command_id (b ∷ rest) ≡ err (error (unsupported_command b))))
  unfolding read_command_id
  read_command_id_of b rest (ok c) e m = inl (c, m, rw ((read_u8-Reads b).run rest, e))
  read_command_id_of b rest (err x) e m =
      inr (λ c h. cc (e, command_of_byte-command_byte c, h), rw ((read_u8-Reads b).run rest, e, m))
  read_command_id_of b rest panic e m = absurd m

  -- Reading a command from any byte either returns the one command that stands for the byte, and
  -- leaves the rest of the input, or, when no command does, reports the byte as an unsupported
  -- command.
  pub read_command_id_lem :
      (b : ℕ) (rest : Bytes)
      → ((c : CommandId) × (command_byte c ≡ b) × (read_command_id (b ∷ rest) ≡ ok (c, rest)))
        ⊎ (((c : CommandId) → command_byte c ≢ b)
            × (read_command_id (b ∷ rest) ≡ err (error (unsupported_command b))))
  read_command_id_lem b rest =
      read_command_id_of b rest (command_of_byte b) refl (command_of_byte-IsMatch b)
