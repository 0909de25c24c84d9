-- ===== src/Modbus/Tests.antt =====
-- Runs of the Modbus master on concrete inputs.
use takt_os.Base.{◌≡◌, arith}
use takt_os.Modbus.{crc16, frame}
use takt_os.Modbus.Frame.{crc16-frame}

crc16-frame_example : crc16 (frame 17 107) ≡ 0
crc16-frame_example = crc16-frame 17 107 (omega arith) (omega arith)
