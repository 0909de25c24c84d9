-- ===== src/Drivers.antt =====
-- drivers/: the drivers of the ESP32 build, over the functions of ESP-IDF as parameters. Those of the
-- host build are constants; the functions that need no hardware are with their users.
pub mod Partition
pub mod Flash
pub mod Platform
pub mod Uart
pub mod Adc
pub mod Update
mod Tests
