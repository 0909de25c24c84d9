-- ===== src/Recovery.antt =====
-- recovery/include/takt/recovery_manager.hpp and recovery/src/recovery_manager.cpp: the device
-- firmware update, from the chunks that a transport hands over to the activated slot.
-- `Device` is what an update changes: the recovery manager, the firmware cache, the flash and the
-- stored boot configuration. A callback is a number; `Outside` says what the event bus and the
-- callbacks do, to the device and to `W`, which is whatever else they change.
pub mod Transports
pub mod Machine
pub mod Update
mod Tests
use takt_os.Base.{
  ℕ, zero, suc, ◌+◌, ◌%◌, ◌^◌, List, Option, none, some, Bool, true, false, not, ◌||◌, ◌&&◌, ◌==◌,
  if◌then◌else◌,
}
use takt_os.Base.Int.{ℤ, pos, negsuc, minus_one, is_positive}
use takt_os.Storage.{StorageManager}
use takt_os.Firmware
use takt_os.Firmware.{FirmwareCache, inactive_slot, write_chunk, finalize_write, activate_slot}
use takt_os.Bootloader.{BootConfig, request_ota_boot}
use takt_os.Recovery.Transports.{
  BleDfu, WifiOta, UartDfu, new_ble, new_wifi, new_uart, set_ble_handler, set_wifi_handler,
  set_uart_handler, start_ble, start_wifi, start_uart, stop_ble, stop_wifi, tick_uart,
}

pub data RecoveryChannel : Type 0 where
  no_channel ble_channel wifi_channel uart_channel : RecoveryChannel

pub data DfuState : Type 0 where
  idle awaiting_image receiving verifying installing complete failed rolling_back : DfuState

-- The value of a DfuState.
abbrev pub state_code : DfuState → ℕ
state_code DfuState.idle = 0
state_code DfuState.awaiting_image = 1
state_code DfuState.receiving = 2
state_code DfuState.verifying = 3
state_code DfuState.installing = 4
state_code DfuState.complete = 5
state_code DfuState.failed = 6
state_code DfuState.rolling_back = 7

-- The transports, which `init` makes together.
pub record TransportSet : Type 0 where
  pub ble : BleDfu
  pub wifi : WifiOta
  pub uart : UartDfu

pub record RecoveryManager : Type 0 where
  pub state : DfuState
  pub channel : RecoveryChannel
  pub received : ℕ
  pub total_size : ℕ
  pub progress_cb : Option ℕ
  pub transports : Option TransportSet

abbrev pub new_recovery : RecoveryManager
new_recovery = record {
  state = DfuState.idle;
  channel = RecoveryChannel.no_channel;
  received = 0;
  total_size = 0;
  progress_cb = none;
  transports = none;
}

pub record Device (F : Type 0) : Type 0 where
  pub recovery : RecoveryManager
  pub cache : FirmwareCache
  pub flash : F
  pub rtc : BootConfig

-- Event::OtaProgress and the others of event.hpp.
abbrev pub ota_progress_event : ℕ
ota_progress_event = 0x0201

abbrev pub ota_complete_event : ℕ
ota_complete_event = 0x0202

abbrev pub ota_failed_event : ℕ
ota_failed_event = 0x0203

abbrev pub ota_rollback_event : ℕ
ota_rollback_event = 0x0204

pub record Outside (F W : Type 0) : Type 0 where
  pub publish : ℕ → ℕ → ℕ → Device F × W → Device F × W
  pub progress : ℕ → ℕ → ℕ → DfuState → Device F × W → Device F × W

-- The handler that calls `receiveChunk`.
abbrev pub receive_handler : ℕ
receive_handler = 0

abbrev pub set_recovery : {F : Type 0} → Device F → RecoveryManager → Device F
set_recovery d r = record d { recovery = r }

unfoldable pub on_progress : RecoveryManager → Option ℕ → RecoveryManager
on_progress r callback = record r { progress_cb = callback }

-- The switch of `startDfuListener`. (A channel without its transports does not occur: `init` sets
-- both.)
abbrev pub start_channel : RecoveryChannel → Option TransportSet → Bool × Option TransportSet
start_channel _ none = (false, none)
start_channel RecoveryChannel.ble_channel (some t) =
    (true, some (record t { ble = (start_ble t.ble).1 }))
start_channel RecoveryChannel.wifi_channel (some t) =
    (true, some (record t { wifi = (start_wifi t.wifi).1 }))
start_channel RecoveryChannel.uart_channel (some t) =
    (true, some (record t { uart = (start_uart t.uart).1 }))
start_channel RecoveryChannel.no_channel (some t) = (false, some t)

abbrev pub is_state : DfuState → DfuState → Bool
is_state wanted state = state_code state == state_code wanted

-- The value of `written` where it is positive.
abbrev pub pos_part : ℤ → ℕ
pos_part (pos n) = n
pos_part (negsuc n) = 0

abbrev pub stop_transports : TransportSet → TransportSet
stop_transports t = record t { ble = stop_ble t.ble; wifi = stop_wifi t.wifi }

abbrev pub is_uart : RecoveryChannel → Bool
is_uart RecoveryChannel.uart_channel = true
is_uart _ = false

module _ {F W : Type 0} (m : StorageManager F) (o : Outside F W) where
  -- `if (progressCb_) progressCb_(…)`.
  abbrev pub call_progress : Option ℕ → Device F × W → Device F × W
  call_progress none s = s
  call_progress (some cb) s =
      let r = s.0.recovery in o.progress cb r.received r.total_size r.state s

  unfoldable pub notify_progress : Device F × W → Device F × W
  notify_progress s = call_progress s.0.recovery.progress_cb s

  unfoldable pub set_state : DfuState → Device F × W → Device F × W
  set_state state s =
      notify_progress (set_recovery s.0 (record (s.0.recovery) { state = state }), s.1)

  unfoldable pub init : RecoveryChannel → Device F × W → Bool × Device F × W
  init channel s =
      let made : TransportSet = record {
        ble = set_ble_handler new_ble (some receive_handler);
        wifi = set_wifi_handler new_wifi (some receive_handler);
        uart = set_uart_handler new_uart (some receive_handler);
      } in
      (
        true,
        set_recovery s.0 (record (s.0.recovery) { channel = channel; transports = some made }),
        s.1,
      )

  unfoldable pub start_dfu_listener : Device F × W → Bool × Device F × W
  start_dfu_listener s =
      let (d1, w1) = set_state DfuState.awaiting_image s in
      let (ok, transports) = start_channel d1.recovery.channel d1.recovery.transports in
      (ok, set_recovery d1 (record (d1.recovery) { transports = transports }), w1)

  -- The chunk is written, and counted.
  abbrev pub count_chunk : ℤ → Device F × W → Device F × W
  count_chunk written s =
      let r = s.0.recovery in
      let r' = record r { received = (r.received + pos_part written) % 2 ^ 32 } in
      notify_progress
        (o.publish ota_progress_event r'.received r'.total_size (set_recovery s.0 r', s.1))

  -- `receiveChunk` behind its test of the state.
  unfoldable pub take_chunk : List ℕ → Device F × W → ℤ × Device F × W
  take_chunk chunk s =
      let (written, cache, flash) = write_chunk m s.0.cache s.0.flash chunk in
      let s1 : Device F × W = (record (s.0) { cache = cache; flash = flash }, s.1) in
      let s2 = count_chunk written s1 in
      if is_positive written then (written, s2.0, s2.1) else (written, s1.0, s1.1)

  unfoldable pub receive_chunk : List ℕ → Device F × W → ℤ × Device F × W
  receive_chunk chunk s =
      let awaiting = is_state DfuState.awaiting_image s.0.recovery.state in
      let taken = take_chunk chunk (if awaiting then set_state DfuState.receiving s else s) in
      if not awaiting && not (is_state DfuState.receiving s.0.recovery.state)
      then (minus_one, s.0, s.1)
      else taken

  -- The end of `finalizeDfu`, once the slot is activated.
  abbrev pub dfu_complete : ℕ → Device F × W → Device F × W
  dfu_complete slot s =
      let s1 = o.publish ota_complete_event 0 0 (set_state DfuState.complete s) in
      (record (s1.0) { rtc = request_ota_boot s1.0.rtc slot }, s1.1)

  pub finalize_dfu : Device F × W → Bool × Device F × W
  finalize_dfu s =
      let s1 = set_state DfuState.verifying s in
      let (verified, cache2, flash2) = finalize_write m s1.0.cache s1.0.flash in
      let s2 : Device F × W = (record (s1.0) { cache = cache2; flash = flash2 }, s1.1) in
      let bad = o.publish ota_failed_event 0 0 (set_state DfuState.failed s2) in
      let s3 = set_state DfuState.installing s2 in
      let slot = inactive_slot s3.0.cache in
      let (active, cache4, flash4) = activate_slot m s3.0.cache s3.0.flash slot in
      let s4 : Device F × W = (record (s3.0) { cache = cache4; flash = flash4 }, s3.1) in
      let not_active = set_state DfuState.failed s4 in
      let good = dfu_complete slot s4 in
      if not verified
      then (false, bad.0, bad.1)
      else if not active
      then (false, not_active.0, not_active.1)
      else (true, good.0, good.1)

  pub rollback : Device F × W → Bool × Device F × W
  rollback s =
      let s1 = set_state DfuState.rolling_back s in
      let (ok, cache, flash) = Firmware.rollback m s1.0.cache s1.0.flash in
      let s2 : Device F × W = (record (s1.0) { cache = cache; flash = flash }, s1.1) in
      let bad = set_state DfuState.failed s2 in
      let good = o.publish ota_rollback_event 0 0 (set_state DfuState.complete s2) in
      if not ok then (false, bad.0, bad.1) else (true, good.0, good.1)

  pub abort : Device F × W → Device F × W
  abort s =
      let (d1, w1) = set_state DfuState.idle s in
      let r = record (d1.recovery) { received = 0; total_size = 0 } in
      let stopped : Option TransportSet = elim r.transports [
        | none ↦ none
        | some t ↦ some (stop_transports t)
      ] in
      (set_recovery d1 (record r { transports = stopped }), w1)

  pub tick : Device F × W → Device F × W
  tick s =
      let r = s.0.recovery in
      elim r.transports [
        | none ↦ s
        | some t ↦
            if is_uart r.channel
            then (
              set_recovery s.0
                  (record r { transports = some (record t { uart = tick_uart t.uart }) }),
              s.1,
            )
            else s
      ]

  -- The loop of `run`; `none` is that the fuel ran out.
  pub run_loop : ℕ → Device F × W → Option (Device F × W)
  run_loop zero s = none
  run_loop (suc fuel) s =
      let rest = run_loop fuel (tick s) in
      let state = s.0.recovery.state in
      if is_state DfuState.complete state || is_state DfuState.failed state then some s else rest

  pub run : ℕ → Device F × W → Option (Device F × W)
  run fuel s = let (_, d, w) = start_dfu_listener s in run_loop fuel (d, w)
