-- ===== src/Deconz/Protocol/Fields/Firmware.antt =====
-- Platforms and versions on the wire.
use tophamm.Base.{ℕ, ◌≡◌, ◌≢◌, refl, [], ◌∷◌, arith}
use tophamm.Deconz.Types.{Platform, avr, arm, unknown, Version}
use tophamm.Deconz.Wire.Reading.{Reads, >>=-Reads, pure-Reads}
use tophamm.Deconz.Wire.External.{Byteorder}
use tophamm.Deconz.Wire.Laws.{read_u8-Reads}
use tophamm.Deconz.Protocol.Fields.{platform_of_byte, read_platform, read_version}

unfoldable pub platform_byte : Platform → ℕ
platform_byte avr = 0x05
platform_byte arm = 0x07
platform_byte (unknown byte) = byte

-- An unknown platform is not one of the known ones.
abbrev pub IsPlatform : Platform → Type 0
IsPlatform avr = Unit {0}
IsPlatform arm = Unit {0}
IsPlatform (unknown byte) = (byte ≢ 0x05) × (byte ≢ 0x07)

platform_of_byte-platform_byte :
    (p : Platform) → IsPlatform p → platform_of_byte (platform_byte p) ≡ p
unfolding platform_of_byte platform_byte
platform_of_byte-platform_byte avr h = refl
platform_of_byte-platform_byte arm h = refl
platform_of_byte-platform_byte (unknown byte) h = ground arith

module _ ⦃bo : Byteorder⦄ where
  pub read_platform-Reads :
      (p : Platform) → IsPlatform p → Reads read_platform (platform_byte p ∷ []) p
  unfolding read_platform
  read_platform-Reads p h = record {
    run =
        λ rest. rw ((read_u8-Reads (platform_byte p)).run rest, platform_of_byte-platform_byte p h);
  }

  -- The minor number comes first.
  pub read_version-Reads : (v : Version) → Reads read_version (v.minor ∷ v.major ∷ []) v
  unfolding read_version
  read_version-Reads v =
      >>=-Reads _ (v.minor ∷ []) (read_u8-Reads v.minor)
        (pure-Reads (λ major. record v { major = major }) (read_u8-Reads v.major))
