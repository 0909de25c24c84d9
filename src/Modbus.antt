-- ===== src/Modbus.antt =====
-- middleware/include/takt/modules/modbus_module.hpp and middleware/src/modbus_module.cpp: the Modbus
-- master. `Line` is the UART and the event bus, on a state `W`.
pub mod Frame
mod Tests
use takt_os.Base.{
  ℕ, zero, suc, ◌+◌, ◌*◌, ◌/◌, ◌%◌, ◌^◌, List, [], ◌∷◌, ◌++◌, Bool, true, false, bit_and, bit_or,
  bit_xor, ltb, leb, get_or, if◌then◌else◌, ◌==◌,
}
use takt_os.Base.Int.{ℤ, pos, negsuc}

pub data Mode : Type 0 where
  rtu tcp : Mode

pub record ModbusModule : Type 0 where
  pub mode : Mode
  pub uart_port : ℕ
  pub request_pending : Bool
  pub pending_slave : ℕ
  pub pending_addr : ℕ

-- The constructor.
abbrev pub new_modbus : Mode → ℕ → ModbusModule
new_modbus mode uart_port = record {
  mode = mode;
  uart_port = uart_port;
  request_pending = false;
  pending_slave = 0;
  pending_addr = 0;
}

pub record Line (W : Type 0) : Type 0 where
  -- The port, and the baud rate, the TX pin and the RX pin.
  pub init : ℕ → ℕ → ℕ → ℕ → W → W
  pub write : ℕ → List ℕ → W → W
  -- The result, and the bytes that were read, for a buffer of the given length.
  pub read : ℕ → ℕ → W → ℤ × List ℕ × W
  pub publish : ℕ → ℕ → ℕ → W → W

abbrev pub modbus_request_event : ℕ
modbus_request_event = 0x0302

-- The body of the inner loop of `crc16`, its eight rounds, and the outer loop.
abbrev pub crc_step : ℕ → ℕ
crc_step crc = if bit_and crc 1 == 0 then crc / 2 else bit_xor (crc / 2) 0xA001

unfoldable pub crc_steps : ℕ → ℕ → ℕ
crc_steps zero crc = crc
crc_steps (suc n) crc = crc_steps n (crc_step crc)

unfoldable pub crc_from : ℕ → List ℕ → ℕ
crc_from crc [] = crc
crc_from crc (x ∷ rest) = crc_from (crc_steps 8 (bit_xor crc x)) rest

unfoldable pub crc16 : List ℕ → ℕ
crc16 bytes = crc_from 0xFFFF bytes

-- The first six bytes of the request.
abbrev pub request : ℕ → ℕ → List ℕ
request slave addr = slave ∷ 3 ∷ addr / 256 % 256 ∷ addr % 256 ∷ 0 ∷ 1 ∷ []

unfoldable pub frame : ℕ → ℕ → List ℕ
frame slave addr =
    let crc = crc16 (request slave addr) in request slave addr ++ (crc % 256 ∷ crc / 256 % 256 ∷ [])

-- `n >= 5`.
abbrev pub has_value : ℤ → Bool
has_value (pos n) = leb 5 n
has_value (negsuc n) = false

-- `static_cast<uint16_t>((resp[3] << 8) | resp[4])`.
abbrev pub value_of : List ℕ → ℕ
value_of resp = bit_or (get_or resp 3 0 * 256) (get_or resp 4 0) % 2 ^ 16

module _ {W : Type 0} (line : Line W) where
  pub init : ModbusModule → W → Bool × W
  init m w = elim m.mode [
    | Mode.rtu ↦ (true, line.init m.uart_port 9600 17 16 w)
    | Mode.tcp ↦ (true, w)
  ]

  -- The transfer of `readHoldingRegister`: the value behind it.
  pub transfer : ModbusModule → ℕ → ℕ → ℕ → W → ℕ × W
  transfer m slave addr value w =
      let w1 = line.write m.uart_port (frame slave addr) w in
      let (n, resp, w2) = line.read m.uart_port 7 w1 in
      elim m.mode [
        | Mode.rtu ↦ (if has_value n then value_of resp else value, w2)
        | Mode.tcp ↦ (value, w)
      ]

  pub read_holding_register : ModbusModule → ℕ → ℕ → ℕ → W → Bool × ℕ × W
  read_holding_register m slave addr value w =
      let (value', w1) = transfer m slave addr value w in
      (true, value', line.publish modbus_request_event slave addr w1)

  pub process_request : ModbusModule → W → ModbusModule × W
  process_request m w =
      let m1 = record m { request_pending = false } in
      let (_, _, w1) = read_holding_register m1 m.pending_slave m.pending_addr 0 w in (m1, w1)

  pub tick : ModbusModule → W → ModbusModule × W
  tick m w = if m.request_pending then process_request m w else (m, w)

-- The value is not stored.
pub write_coil : ModbusModule → ℕ → ℕ → Bool → Bool × ModbusModule
write_coil m slave addr value =
    (true, record m { pending_slave = slave; pending_addr = addr; request_pending = true })
