-- ===== src/Deconz/Port.antt =====
-- `open_tty` of deconz/src/lib.rs. `Serial::from_path` of the crate tokio_serial is an argument:
-- the port that it opens at a path, or nothing when it fails. Of the settings, those that the code
-- sets are fields.
use tophamm.Base.{ℕ, Option, none, some}
use tophamm.Outcome.{ok, err}
use tophamm.Deconz.Errors.{Result, from_kind, serial_port}

pub record SerialPortSettings : Type 0 where
  pub baud_rate : ℕ
  -- In seconds.
  pub timeout : ℕ

abbrev pub baud : ℕ
baud = 38400

abbrev pub tty_settings : SerialPortSettings
tty_settings = record { baud_rate = baud; timeout = 60 }

module _ {Serial : Type 0} where
  abbrev tty_of : Option Serial → Result Serial
  tty_of none = err (from_kind serial_port)
  tty_of (some tty) = ok tty

  -- The port on which `Deconz::new` starts the tasks.
  unfoldable pub open_tty :
      {P : Type 0} → (P → SerialPortSettings → Option Serial) → P → Result Serial
  open_tty from_path path = tty_of (from_path path tty_settings)
