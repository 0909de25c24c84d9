-- ===== src/Ota.antt =====
-- services/include/takt/services/ota_service.hpp and services/src/ota_service.cpp: the update service
-- over the recovery manager.
-- The service lies beside the device, in `Services`, with `rest` for what else the subscribers and
-- callbacks change. The service registers a progress callback with the recovery manager: `outside`
-- runs it where the recovery manager calls that number, and `Outside` is asked for all others.
pub mod Progress
pub mod Client
pub mod Update
mod Tests
use takt_os.Base.{
  ℕ, ◌+◌, ◌%◌, ◌^◌, List, Option, none, some, Bool, true, false, not, ◌==◌, if◌then◌else◌,
}
use takt_os.Base.Int.{ℤ, minus_one, is_positive}
use takt_os.Storage.{StorageManager}
use takt_os.Firmware
use takt_os.Firmware.{FirmwareCache, begin_write}
use takt_os.Recovery
use takt_os.Recovery.{
  RecoveryChannel, DfuState, Device, Outside, set_recovery, pos_part, ota_progress_event,
  ota_failed_event, ota_rollback_event, receive_chunk, finalize_dfu, start_dfu_listener,
}

pub data OtaTransport : Type 0 where
  wifi ble : OtaTransport

-- The value of a transport.
abbrev pub transport_code : OtaTransport → ℕ
transport_code OtaTransport.wifi = 0
transport_code OtaTransport.ble = 1

pub record OtaService : Type 0 where
  pub active : Bool
  pub transport : OtaTransport
  pub progress_cb : Option ℕ
  pub received : ℕ
  pub total_size : ℕ

pub record Services (V : Type 0) : Type 0 where
  pub ota : OtaService
  pub rest : V

abbrev pub ota_start_event : ℕ
ota_start_event = 0x0200

-- The callback that `startUpdate` hands to the recovery manager.
abbrev pub ota_callback : ℕ
ota_callback = 1

abbrev pub set_ota : {V : Type 0} → Services V → OtaService → Services V
set_ota w ota = record w { ota = ota }

pub init : OtaService → Bool × OtaService
init ota = (true, ota)

pub on_progress : OtaService → Option ℕ → OtaService
on_progress ota callback = record ota { progress_cb = callback }

abbrev pub channel_of : OtaTransport → RecoveryChannel
channel_of OtaTransport.wifi = RecoveryChannel.wifi_channel
channel_of OtaTransport.ble = RecoveryChannel.ble_channel

abbrev pub deactivated : {V : Type 0} → Services V → Services V
deactivated w = set_ota w (record (w.ota) { active = false })

module _ {F V : Type 0} (m : StorageManager F) (o : Outside F (Services V))
    (user : ℕ → ℕ → ℕ → Device F × Services V → Device F × Services V) where
  -- `if (progressCb_) progressCb_(rx, total);`
  abbrev pub call_user : Option ℕ → ℕ → ℕ → Device F × Services V → Device F × Services V
  call_user none rx total s = s
  call_user (some cb) rx total s = user cb rx total s

  -- The callback of `startUpdate`.
  pub on_dfu_progress : ℕ → ℕ → Device F × Services V → Device F × Services V
  on_dfu_progress rx total s =
      let ota = record (s.1.ota) { received = rx; total_size = total } in
      o.publish ota_progress_event rx total
        (call_user ota.progress_cb rx total (s.0, set_ota s.1 ota))

  -- What the recovery manager meets.
  abbrev pub outside : Outside F (Services V)
  outside = record {
    publish = o.publish;
    progress = λ cb rx total state s.
        if cb == ota_callback then on_dfu_progress rx total s else o.progress cb rx total state s;
  }

  pub start_update : OtaTransport → ℕ → ℕ → Device F × Services V → Bool × Device F × Services V
  start_update transport image_size version s =
      let ota = record (s.1.ota) { transport = transport; total_size = image_size; received = 0 } in
      let (_, d1, w1) = Recovery.init m outside (channel_of transport) (s.0, set_ota s.1 ota) in
      let d2 = set_recovery d1 (Recovery.on_progress d1.recovery (some ota_callback)) in
      let (begun, cache) = begin_write d2.cache image_size version in
      let (_, d3, w3) = start_dfu_listener m outside (record d2 { cache = cache }, w1) in
      let w4 = set_ota w3 (record (w3.ota) { active = true }) in
      let s5 = o.publish ota_start_event image_size (transport_code transport) (d3, w4) in
      if not begun then (false, d2, w1) else (true, s5.0, s5.1)

  pub feed_chunk : List ℕ → Device F × Services V → ℤ × Device F × Services V
  feed_chunk chunk s =
      let (n, d, w) = receive_chunk m outside chunk s in
      let ota = record (w.ota) { received = (w.ota.received + pos_part n) % 2 ^ 32 } in
      if not s.1.ota.active
      then (minus_one, s.0, s.1)
      else if is_positive n
      then (n, d, set_ota w ota)
      else (n, d, w)

  pub complete_update : Device F × Services V → Bool × Device F × Services V
  complete_update s =
      let (ok, d, w) = finalize_dfu m outside s in
      let bad = o.publish ota_failed_event 0 0 (d, w) in
      if not s.1.ota.active
      then (false, s.0, s.1)
      else if not ok
      then (false, bad.0, deactivated bad.1)
      else (true, d, deactivated w)

  pub tick : Device F × Services V → Device F × Services V
  tick s = if not s.1.ota.active then s else Recovery.tick m outside s

  pub rollback : Device F × Services V → Bool × Device F × Services V
  rollback s =
      let (ok, cache, flash) = Firmware.rollback m s.0.cache s.0.flash in
      let s1 =
        o.publish ota_rollback_event 0 0
          (record (s.0) { cache = cache; flash = flash }, deactivated s.1) in
      (ok, s1.0, s1.1)

  pub shutdown : Device F × Services V → Device F × Services V
  shutdown s = Recovery.abort m outside (s.0, deactivated s.1)
