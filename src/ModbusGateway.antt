-- ===== src/ModbusGateway.antt =====
-- services/include/takt/services/modbus_gateway.hpp and services/src/modbus_gateway.cpp: the gateway
-- that polls the registers of slave 1, over the Modbus module. `modbus` is the module that modbus_
-- points to, which lives outside; `none` is the null pointer.
pub mod Poll
use takt_os.Base.{ℕ, ◌+◌, ◌%◌, Option, none, some, Bool, true, false, not, if◌then◌else◌}
use takt_os.Modbus.{ModbusModule, Line, read_holding_register}

pub record ModbusGateway : Type 0 where
  pub modbus : Option ModbusModule
  pub poll_pending : Bool
  pub poll_addr : ℕ

abbrev pub new_gateway : ModbusGateway
new_gateway = record { modbus = none; poll_pending = true; poll_addr = 0 }

pub init : ModbusGateway → Bool × ModbusGateway
init g = (true, g)

pub has_work : ModbusGateway → Bool
has_work g = g.poll_pending

pub set_modbus_module : ModbusGateway → Option ModbusModule → ModbusGateway
set_modbus_module g modbus = record g { modbus = modbus }

module _ {W : Type 0} (line : Line W) where
  -- The value that is read is dropped.
  unfoldable pub poll : ModbusModule → ModbusGateway → W → ModbusGateway × W
  poll m g w =
      let (_, _, w1) = read_holding_register line m 1 g.poll_addr 0 w in
      (record g { poll_addr = (g.poll_addr + 1) % 10 }, w1)

  -- `poll_on` is the part of `tick` behind the test of the pointer.
  abbrev pub poll_on : Option ModbusModule → ModbusGateway → W → ModbusGateway × W
  poll_on none g w = (g, w)
  poll_on (some m) g w = poll m g w

  unfoldable pub tick : ModbusGateway → W → ModbusGateway × W
  tick g w = if not g.poll_pending then (g, w) else poll_on g.modbus g w

pub shutdown : ModbusGateway → ModbusGateway
shutdown g = g
