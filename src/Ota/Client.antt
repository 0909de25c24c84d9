-- ===== src/Ota/Client.antt =====
-- A client of the service: `startUpdate`, a `feedChunk` for each chunk, and `completeUpdate`.
use takt_os.Base.{
  ℕ, ◌≡◌, refl, ap, ap₂, ◌∙◌, List, [], ◌∷◌, some, Bool, true, false, if◌then◌else◌, length,
}
use takt_os.Base.Int.{pos, is_negative}
use takt_os.Storage.{StorageManager}
use takt_os.Firmware.{
  FirmwareCache, inactive_slot, begin_write, write_chunk, finalize_write, activate_slot,
}
use takt_os.Firmware.Update.{chunk_written}
use takt_os.Firmware.Session.{feed, concat, Accepts}
use takt_os.Bootloader.{request_ota_boot}
use takt_os.Recovery.{
  DfuState, Device, Outside, set_state, init, start_dfu_listener, finalize_dfu, set_recovery,
}
use takt_os.Recovery.Machine.{with_state, set_state-device, finalize_dfu-activated}
use takt_os.Recovery.Update.{is_open}
use takt_os.Ota.{
  OtaTransport, OtaService, Services, channel_of, transport_code, ota_callback, ota_start_event,
  set_ota, outside, start_update, feed_chunk, complete_update,
}
use takt_os.Ota.Progress.{IsApart, outside-IsQuiet, feed_chunk-open}

module _ {F V : Type 0} (m : StorageManager F) (o : Outside F (Services V))
    (user : ℕ → ℕ → ℕ → Device F × Services V → Device F × Services V) where
  pub feed_all : List (List ℕ) → Device F × Services V → Bool × Device F × Services V
  feed_all [] s = (true, s.0, s.1)
  feed_all (chunk ∷ chunks) s =
      let (n, d, w) = feed_chunk m o user chunk s in
      let rest = feed_all chunks (d, w) in if is_negative n then (false, d, w) else rest

  unfoldable pub update :
      OtaTransport → ℕ → List (List ℕ) → Device F × Services V → Bool × Device F × Services V
  update transport version chunks s =
      let (started, d1, w1) = start_update m o user transport (length (concat chunks)) version s in
      let (fed, d2, w2) = feed_all chunks (d1, w1) in
      let done = complete_update m o user (d2, w2) in
      if started then if fed then done else (false, d2, w2) else (false, d1, w1)

  module _ (apart : IsApart m o user) where
    -- What the chunks leave of the device and the service.
    pub record AllFed (s : Device F × Services V) (c : FirmwareCache) (f : F)
        (r : Bool × Device F × Services V) : Type 0 where
      pub accepted : r.0 ≡ true
      pub cache_of : r.1.cache ≡ c
      pub flash_of : r.1.flash ≡ f
      pub rtc_of : r.1.rtc ≡ s.0.rtc
      pub active : r.2.ota.active ≡ true

    pub feed_all_lem :
        (chunks : List (List ℕ)) (s : Device F × Services V) (c : FirmwareCache) (f : F)
        → s.0.cache ≡ c
        → s.0.flash ≡ f
        → s.1.ota.active ≡ true
        → is_open s.0.recovery.state ≡ true
        → Accepts m c f chunks
        → AllFed s (feed m c f chunks).1 (feed m c f chunks).2 (feed_all chunks s)
    unfolding feed feed_all
    feed_all_lem [] s c f ec ef on open_state accepts = record {
      accepted = refl;
      cache_of = ec;
      flash_of = ef;
      rtc_of = refl;
      active = on;
    }
    feed_all_lem (x ∷ rest) s c f ec ef on open_state (some_bytes, (f', run, accepts)) =
        let run' : write_chunk m s.0.cache s.0.flash x ≡ (pos (length x), chunk_written c x, f') =
          ap₂ (λ c1 f1. write_chunk m c1 f1 x) ec ef ∙ run in
        let (told, device, on') =
          feed_chunk-open m o user apart x s (length x) (chunk_written c x) f' on open_state
            some_bytes run' in
        let s1 : Device F × Services V =
          ((feed_chunk m o user x s).1, (feed_chunk m o user x s).2) in
        let ih =
          feed_all_lem rest s1 (chunk_written c x) f' (ap (λ (d : Device F). d.cache) device)
            (ap (λ (d : Device F). d.flash) device) on'
            (ap (λ (d : Device F). is_open d.recovery.state) device) accepts in
        rw (told, run)
          (record {
            accepted = ih.accepted;
            cache_of = ih.cache_of;
            flash_of = ih.flash_of;
            rtc_of = ih.rtc_of ∙ ap (λ (d : Device F). d.rtc) device;
            active = ih.active;
          })

    pub start_update-begun :
        (transport : OtaTransport) (image_size version : ℕ) (s : Device F × Services V)
        (c : FirmwareCache)
        → begin_write s.0.cache image_size version ≡ (true, c)
        → let (ok, d, w) = start_update m o user transport image_size version s in
          (ok ≡ true)
          × (d.cache ≡ c)
          × (d.flash ≡ s.0.flash)
          × (d.rtc ≡ s.0.rtc)
          × (is_open d.recovery.state ≡ true)
          × (w.ota.active ≡ true)
    unfolding start_update init start_dfu_listener takt_os.Recovery.on_progress
    start_update-begun transport image_size version s c run =
        let (_, d1, w1) = init m (outside m o user) (channel_of transport) (
          s.0,
          set_ota s.1
              (record (s.1.ota) { transport = transport; total_size = image_size; received = 0 }),
        ) in
        let d2 : Device F =
          record (set_recovery d1 (record (d1.recovery) { progress_cb = some ota_callback })) {
            cache = c;
          } in
        let s3 = set_state m (outside m o user) DfuState.awaiting_image (d2, w1) in
        let e : s3.0 ≡ with_state d2 DfuState.awaiting_image =
          set_state-device m (outside m o user) (outside-IsQuiet m o user apart)
            DfuState.awaiting_image (d2, w1) in
        let s4 = start_dfu_listener m (outside m o user) (d2, w1) in
        let w4 = set_ota s4.2 (record (s4.2.ota) { active = true }) in
        let p =
          apart.publish_lem ota_start_event image_size (transport_code transport) (s4.1, w4) in
        let q =
          apart.publish_ota ota_start_event image_size (transport_code transport) (s4.1, w4) in
        rw run (
          refl,
          ap (λ (d : Device F). d.cache) p ∙ ap (λ (d : Device F). d.cache) e,
          ap (λ (d : Device F). d.flash) p ∙ ap (λ (d : Device F). d.flash) e,
          ap (λ (d : Device F). d.rtc) p ∙ ap (λ (d : Device F). d.rtc) e,
          ap (λ (d : Device F). is_open d.recovery.state) p
              ∙ ap (λ (d : Device F). is_open d.recovery.state) e,
          ap (λ (t : OtaService). t.active) q,
        )

    pub complete_update-activated :
        (s : Device F × Services V) (c1 c2 : FirmwareCache) (f1 f2 : F)
        → s.1.ota.active ≡ true
        → finalize_write m s.0.cache s.0.flash ≡ (true, c1, f1)
        → activate_slot m c1 f1 (inactive_slot c1) ≡ (true, c2, f2)
        → let (ok, d, w) = complete_update m o user s in
          (ok ≡ true)
          × (d.recovery.state ≡ DfuState.complete)
          × (d.cache ≡ c2)
          × (d.flash ≡ f2)
          × (d.rtc ≡ request_ota_boot s.0.rtc (inactive_slot c1))
          × (w.ota.active ≡ false)
    unfolding complete_update
    complete_update-activated s c1 c2 f1 f2 on fin act =
        let (ok, device) =
          finalize_dfu-activated m (outside m o user) (outside-IsQuiet m o user apart) s c1 c2 f1 f2
            fin act in
        simp on (
          rw ok (
            refl,
            ap (λ (d : Device F). d.recovery.state) device,
            ap (λ (d : Device F). d.cache) device,
            ap (λ (d : Device F). d.flash) device,
            ap (λ (d : Device F). d.rtc) device,
            refl,
          ))
