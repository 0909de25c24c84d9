-- ===== src/Drivers/Platform.antt =====
-- drivers/include/takt/drivers/platform.hpp and drivers/src/platform.cpp in the ESP32 build: what
-- `Platform::init` sets up, and the pins. The watchdog, the clock and the reset reason are the
-- hardware's.
use takt_os.Base.{ℕ, ◌^◌, List, [], ◌∷◌, Option, none, some, Bool, true, false, ◌==◌, if◌then◌else◌}
use takt_os.Storage.{StorageManager}
use takt_os.Storage.Regions.{same_text}
use takt_os.Firmware
use takt_os.Firmware.{FirmwareCache}
use takt_os.Drivers.Partition.{
  EspPartition, PartitionApi, Device, storage_label, init_storage_from_partition,
}

-- The application partitions ota_0 and ota_1, and the label of the running partition, as ESP-IDF
-- finds them.
pub record OtaApi : Type 0 where
  pub ota_0 : Option EspPartition
  pub ota_1 : Option EspPartition
  pub running_label : Option (List ℕ)

abbrev pub ota_0_label : List ℕ
ota_0_label = b'o' ∷ b't' ∷ b'a' ∷ b'_' ∷ b'0' ∷ []

module _ {F : Type 0} where
  -- FirmwareCache::init in this build.
  unfoldable pub init_firmware :
      OtaApi → StorageManager F → FirmwareCache → F → ℕ → ℕ → ℕ → Bool × FirmwareCache
  init_firmware ota m c f slot_a slot_b size = elim ota.running_label [
    | none ↦ Firmware.init m c f slot_a slot_b size
    | some label ↦ (
      true,
      record c {
        slot_a_offset = slot_a;
        slot_b_offset = slot_b;
        slot_size = size;
        active_slot = if same_text label ota_0_label then 0 else 1;
      },
    )
  ]

module _ {F : Type 0} (api : PartitionApi F) (ota : OtaApi) where
  -- The end of `Platform::init`.
  abbrev pub init_slots :
      Option EspPartition
      → Option EspPartition
      → StorageManager (Device F)
      → FirmwareCache
      → Device F
      → FirmwareCache
  init_slots none b m c s = c
  init_slots (some a) none m c s = c
  init_slots (some a) (some b) m c s = (init_firmware ota m c s a.address b.address a.size).1

  -- Platform::init: what `initStorageFromPartition` and `FirmwareCache::init` return is dropped.
  unfoldable pub platform_init :
      StorageManager (Device F)
      → FirmwareCache
      → Device F
      → Bool × StorageManager (Device F) × FirmwareCache × Device F
  platform_init m c s =
      let (_, m1, s1) = init_storage_from_partition api m (storage_label api) s in
      (true, m1, init_slots ota.ota_0 ota.ota_1 m1 c s1, s1)

pub data GpioMode : Type 0 where
  input output input_pull_up input_pull_down : GpioMode

pub data Level : Type 0 where
  low high : Level

-- The gpio_config_t that `Gpio::setMode` makes.
pub record GpioConfig : Type 0 where
  pub pin_bit_mask : ℕ
  pub is_output : Bool
  pub pull_up : Bool
  pub pull_down : Bool

pub gpio_config_of : ℕ → GpioMode → GpioConfig
gpio_config_of pin GpioMode.input = record {
  pin_bit_mask = 2 ^ pin;
  is_output = false;
  pull_up = false;
  pull_down = false;
}
gpio_config_of pin GpioMode.output = record {
  pin_bit_mask = 2 ^ pin;
  is_output = true;
  pull_up = false;
  pull_down = false;
}
gpio_config_of pin GpioMode.input_pull_up = record {
  pin_bit_mask = 2 ^ pin;
  is_output = false;
  pull_up = true;
  pull_down = false;
}
gpio_config_of pin GpioMode.input_pull_down = record {
  pin_bit_mask = 2 ^ pin;
  is_output = false;
  pull_up = false;
  pull_down = true;
}

-- The pins: ESP-IDF's gpio_config (true for ESP_OK), gpio_set_level and gpio_get_level.
pub record GpioApi (W : Type 0) : Type 0 where
  pub config : GpioConfig → W → Bool × W
  pub set_level : ℕ → ℕ → W → W
  pub get_level : ℕ → W → ℕ

module _ {W : Type 0} (gpio : GpioApi W) where
  pub set_mode : ℕ → GpioMode → W → Bool × W
  set_mode pin mode w = gpio.config (gpio_config_of pin mode) w

  pub gpio_read : ℕ → W → Level
  gpio_read pin w = if gpio.get_level pin w == 0 then Level.low else Level.high

  unfoldable pub gpio_write : ℕ → Level → W → W
  gpio_write pin Level.low w = gpio.set_level pin 0 w
  gpio_write pin Level.high w = gpio.set_level pin 1 w
