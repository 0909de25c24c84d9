-- ===== src/Lib.antt =====
-- Takt OS: a model of the kernel's core, and what it does correctly.
--
-- The kernel is a set of singletons that call each other. In each takt the scheduler advances the
-- timers, empties the queue of the event bus and gives each module a turn. The storage manager gives
-- byte access to the flash through a backend of the platform; the firmware cache keeps two images in
-- the flash through the storage manager and checks them with the CRC-32. The boot loader runs before
-- all of this: it counts the starts and chooses what to boot, by the firmware cache's verification.
-- An update comes in chunks to the OTA service, which hands them to the recovery manager; this one
-- writes them to the firmware cache, finalizes the image, activates its slot and requests the boot.
-- The services and the modules of the middleware are modules of the scheduler: they use the settings,
-- the cache, the drivers and each other, and tell each other by events. The SDK gives C programs access
-- to the scheduler, the event bus and the settings.
--
-- Files:
--   Base, Base/Lists, Base/Bits, Base/Int: numbers, lists, bits and `int` codes.
--   Crc32: kernel/src/crc32.cpp and Bootloader::crc32Config of takt_boot/src/bootloader.cpp.
--     `update`, `compute`, `finalize` and `table` keep their names; `table_entry` and
--     `entries_from` are the loops of initTable. Linear relates both computations, Detect is about
--     single faults.
--   Storage: kernel/src/storage_manager.cpp. `init`, `read`, `write` (with `erase_sectors`, its
--     loop), `erase_sector`, `register_region` and `get_region`. Backend states what is relied on of
--     a flash backend, Memory is the backend of tests/test_firmware_cache.cpp; Write, Read and
--     Regions are about the operations, Hazards about a write of no bytes.
--   EventBus: kernel/src/event_bus.cpp. `subscribe`, `unsubscribe`, `publish`, `enqueue`,
--     `dispatch` (with `deliver`, the body of its loop) and `dispatch_queued` (with `take_event`).
--     Subscribers, Queue, Dispatch and Termination are about the table, the ring, the order of
--     delivery and the end of the loop.
--   Firmware: kernel/src/firmware_cache.cpp. `init`, `begin_write`, `write_chunk`,
--     `finalize_write`, `verify` (with `verify_loop`), `activate_slot`, `rollback`, `get_header`.
--     Header, Verify, Update and Finalize are about the stored header and the single operations,
--     Session about a whole update, Hazards about chunks that damage the flash.
--   Timer: kernel/src/timer.cpp. `start`, `stop`, `reset`, `tick` and the moves of a timer, and
--     `register_timer`, `unregister_timer` and `tick_all` of the registry. Registry is about the
--     table, Period about when a timer fires, Moves about what a moved timer leaves behind.
--   Bootloader: takt_boot/src/bootloader.cpp. `load_boot_config`, `save_boot_config`,
--     `determine_boot_mode`, `entry`, `mark_boot_successful` and `request_ota_boot`; a jump is an
--     `Outcome`. Config is about the stored configuration, Boot about sequences of starts.
--   Scheduler: kernel/src/scheduler.cpp. `register_module`, `unregister_module`, `init_all`,
--     `run_takt` (with `run_from`, its loop, and `run_module`, the body), `shutdown_all`. What a takt
--     calls are the `Hooks`. Modules is about the table, Takt about the loop,
--     Entries about the entries that a shutdown changes, Shutdown about the calls of a shutdown.
--   Cache: kernel/src/cache_manager.cpp. `find_line`, `allocate_line`, `read`, `write`, `flush` (with
--     `flush_lines`, its loop) and `invalidate`. Lines and Allocate are about which line a key
--     finds, Access about reads behind writes and misses, Flush about the code of a flush.
--   Recovery: recovery/src/recovery_manager.cpp and, in Transports, recovery_transports.cpp. The
--     operations keep their names; `Device` is all that an update changes. Machine is about
--     `finalize_dfu` and `run`, Update about `receive_chunk`.
--   Ota: services/src/ota_service.cpp. The operations keep their names; the callback that
--     `start_update` registers is `on_dfu_progress`, which `outside` runs where the recovery manager
--     calls it. Progress is about the counts, Client and Update about a whole update.
--   Nvs: kernel/src/nvs_manager.cpp. The host build in Nvs, the ESP32 build in Esp; the operations keep
--     their names. Host is about entries, Values about typed values, Esp/Entries
--     about entries of the ESP32 build, Esp/Keys about keys that are too long.
--   Kernel: kernel/src/kernel.cpp and, in Lite, lite/kernel_lite.cpp. `boot`, `run`,
--     `request_shutdown`, `collect_stats`. Shutdown is about a module that requests the shutdown.
--   Diagnostics: kernel/src/diagnostics.cpp. `heap_info`, `register_stack` and `check_stacks`.
--     Stacks is about the check.
--   Modbus: middleware/src/modbus_module.cpp. `crc16` (with `crc_from` and `crc_steps`, its loops),
--     `frame`, `read_holding_register`, `tick`, `write_coil`. Frame is about the checksum.
--   Script: middleware/src/script_engine_module.cpp. `enqueue_instruction`,
--     `execute_next_instruction`, `tick`, `shutdown`. Queue is about a tick.
--   ConfigManager: services/src/config_manager.cpp. `apply_remote_config`, `apply_pending_config`
--     (applyPending, with `apply_tokens`, its loop, and `tokens`, what strtok_r yields),
--     `set_string`, `tick`. Parse is about the tokens of a printed configuration, Apply about what a
--     tick stores.
--   Telemetry: services/src/telemetry_service.cpp. `add_record` (record), `flush_to_flash`,
--     `upload_batch`, `tick`, over the cache. Batch is about what becomes of a batch.
--   ModbusGateway: services/src/modbus_gateway.cpp. `tick` over the Modbus module; Poll is about
--     sequences of ticks.
--   Drivers: the ESP32 build of drivers/src/: Partition is flash_backend.cpp, Platform is
--     platform.cpp (with FirmwareCache::init of that build), Uart is uart.cpp and Adc is adc.cpp, each
--     over functions of ESP-IDF as parameters. Flash is about the partition backend as a flash
--     backend, Update about the firmware cache behind `platform_init`.
--   Middleware: the other modules of middleware/src/: WifiModule and MqttModule in the ESP32 build,
--     RelayModule, UartModule, SensorModule, BleModule, WebServerModule. Reconnect, Outbox, RelayPin
--     and UartErrors are about the first four.
--   Sdk: sdk/src/takt_sdk.cpp. The functions keep their names, and the static local objects are
--     `Statics`; First is about the calls behind the first.
--   Demo: examples/demo_controller/main/main.cpp: its subscriptions and callbacks. Samples is about the
--     way of a sample from the sensor module to the telemetry buffer.
--   Logger: kernel/src/logger.cpp: which messages are printed.
--   The Tests files hold runs on concrete inputs.
--
-- State is passed explicitly: an operation takes the object's record and returns it behind its
-- result. A flash backend is a record of functions on a type of flash contents, and everything
-- relied on of it is in Storage/Backend. A callback is a number that a parameter executes, on the
-- state as it is by then, so a callback may use the component that calls it.
--
-- Bounds: integers are native natural numbers with their wrap-around written out (uint32_t, and
-- size_t of 64 bits, as in the host build). Four loops have fuel: `verify_loop` gets
-- size / 4096 + 2, which is enough: one round for each chunk of 4096 bytes, one for a rest and one
-- for the test that ends it. `dispatch_queued` takes its fuel from the caller, since it need not
-- end; where no callback lengthens the queue, one round more than there are events is enough. The
-- main loop of the recovery, `run`, takes its fuel from the caller too: no fuel is enough. The `tick`
-- of the script engine gets it too: one round more than there are instructions is enough. The endless
-- loop of the scheduler is given as its first takts, `run_takts`.
--
-- In the drivers and the modules of the ESP32 build size_t has 32 bits. Where they use the storage
-- manager, its sums are those of 64 bits, which are the same as long as an offset and a length add up
-- to between 1 and 2 ^ 32 - 1.
--
-- Not modelled: the inside of ESP-IDF, whose functions are parameters with what they are documented to
-- do; the ESP32 build of the kernel's components but for the settings and FirmwareCache::init; the
-- watchdog and the clock; output, which is the formatting of messages, the reports and the
-- pages of the web server; floating-point numbers; locks; the program of the recovery.
pub mod Base
pub mod Crc32
pub mod Storage
pub mod EventBus
pub mod Firmware
pub mod Timer
pub mod Bootloader
pub mod Scheduler
pub mod Cache
pub mod Recovery
pub mod Ota
pub mod Nvs
pub mod Diagnostics
pub mod Kernel
pub mod Modbus
pub mod Script
pub mod ConfigManager
pub mod Telemetry
pub mod ModbusGateway
pub mod Drivers
pub mod Middleware
pub mod Sdk
pub mod Demo
pub mod Logger
