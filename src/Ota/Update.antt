-- ===== src/Ota/Update.antt =====
-- A client's update through the service.
use takt_os.Base.{
  ℕ, ◌+◌, ◌%◌, ◌^◌, ◌≤◌, ◌<◌, ◌≡◌, refl, ap, ap₂, sym, ◌∙◌, List, [], some, true, false,
  if◌then◌else◌, length, arith, All, ◌==◌,
}
use takt_os.Storage.{FlashBackend, StorageManager}
use takt_os.Storage.Backend.{FlashLaws, Reliable, bytes_at}
use takt_os.Firmware.{
  FirmwareCache, header_reserved, slot_offset, inactive_slot, finalize_write, activate_slot, verify,
  final_header,
}
use takt_os.Firmware.Update.{base, begun, begin_write-IsWriting}
use takt_os.Firmware.Session.{feed, concat, InSectors, feed_lem, feed-Accepts}
use takt_os.Firmware.Finalize.{closed}
use takt_os.Firmware.Activate.{finalize_write-IsImage, activate_slot_lem}
use takt_os.Bootloader.{request_ota_boot}
use takt_os.Recovery.{DfuState, Device, Outside}
use takt_os.Ota.{OtaTransport, Services, start_update, complete_update}
use takt_os.Ota.Progress.{IsApart}
use takt_os.Ota.Client.{
  feed_all, update, feed_all_lem, start_update-begun, complete_update-activated,
}

module _ {F V : Type 0} (m : StorageManager F) (b : FlashBackend F) (byte : F → ℕ → ℕ)
    (laws : FlashLaws b byte) (reliable : Reliable b) (installed : m.backend ≡ some b)
    (small : b.total_size < 2 ^ 31) (sectors : b.sector_size ≡ 4096)
    (whole : b.total_size % 4096 ≡ 0) (o : Outside F (Services V))
    (user : ℕ → ℕ → ℕ → Device F × Services V → Device F × Services V)
    (apart : IsApart m o user) where
  -- On a flash of less than 2 GB with sectors of 4096 bytes, whose backend meets the flash laws and
  -- does not fail, with subscribers and callbacks that leave the device and the service alone: an
  -- update through the service whose chunks fill whole sectors, but for the last, succeeds when the
  -- inactive slot starts at a sector and slot and flash have room. The update is complete and the
  -- service inactive; the slot is the active one and holds an image that verifies, whose bytes are
  -- those of the chunks; the boot into the slot is requested; and no byte below the slot has changed.
  pub update_lem :
      (transport : OtaTransport) (version : ℕ) (chunks : List (List ℕ)) (s : Device F × Services V)
      → base s.0.cache % 4096 ≡ 0
      → InSectors chunks
      → All (λ x. x < 256) (concat chunks)
      → version < 2 ^ 32
      → s.0.cache.slot_size < 2 ^ 32
      → header_reserved + length (concat chunks) ≤ s.0.cache.slot_size
      → base s.0.cache + header_reserved + length (concat chunks) ≤ b.total_size
      → let (ok, d, w) = update m o user transport version chunks s in
        let slot = inactive_slot s.0.cache in
        (ok ≡ true)
        × (d.recovery.state ≡ DfuState.complete)
        × (d.cache.active_slot ≡ slot)
        × (verify m d.cache d.flash slot ≡ true)
        × (bytes_at byte d.flash (base s.0.cache + header_reserved) (length (concat chunks))
            ≡ concat chunks)
        × (d.rtc ≡ request_ota_boot s.0.rtc slot)
        × (w.ota.active ≡ false)
        × ((a : ℕ) → a < base s.0.cache → byte d.flash a ≡ byte s.0.flash a)
  unfolding update
  update_lem transport version chunks s aligned whole_chunks bytes v32 s32 fits room =
      let image = concat chunks in
      let c = s.0.cache in
      let f = s.0.flash in
      let slot = inactive_slot c in
      let c1 = begun c (length image) version in
      let (run, v) =
        begin_write-IsWriting m b byte laws reliable installed small sectors whole c f
          (length image) version (omega arith) s32 (omega arith) in
      let (started, ec, ef, er, open_state, on) =
        start_update-begun m o user apart transport (length image) version s c1 run in
      let s1 : Device F × Services V = (
        (start_update m o user transport (length image) version s).1,
        (start_update m o user transport (length image) version s).2,
      ) in
      let fed =
        feed_lem m b byte laws reliable installed small sectors whole c1 f [] chunks v aligned
          (omega arith) whole_chunks (omega arith) in
      let accepts =
        feed-Accepts m b byte laws reliable installed small sectors whole c1 f [] chunks v aligned
          (omega arith) whole_chunks (omega arith) in
      let all = feed_all_lem m o user apart chunks s1 c1 f ec ef on open_state accepts in
      let c2 = (feed m c1 f chunks).1 in
      let f2 = (feed m c1 f chunks).2 in
      let s2 : Device F × Services V =
        ((feed_all m o user chunks s1).1, (feed_all m o user chunks s1).2) in
      let (f3, fin, held, range, below3) =
        finalize_write-IsImage m b byte laws reliable installed small sectors whole c2 f2 image
          fed.writing (omega (arith, fed.same_base)) (sym fed.same_size) bytes
          (omega (arith, fed.same_version)) (omega (arith, fed.same_base)) in
      let (act, closes, held4, verified, below4, _) =
        activate_slot_lem m b byte laws reliable installed small sectors whole (closed c2) f3
          (final_header c2) image held range refl (omega (arith, fed.same_base))
          (omega (arith, fed.same_base)) in
      let r4 = activate_slot m (closed c2) f3 (inactive_slot c2) in
      let c5 : FirmwareCache = record (closed c2) { active_slot = inactive_slot c2 } in
      let same : inactive_slot c2 ≡ slot = ap (λ n. if n == 0 then 1 else 0) fed.same_slot in
      let actrun : r4 ≡ (true, c5, r4.2) = λ i. (act i, closes i, r4.2) in
      let finrun : finalize_write m s2.0.cache s2.0.flash ≡ (true, closed c2, f3) =
        ap₂ (finalize_write m) all.cache_of all.flash_of ∙ fin in
      let (ok, complete, cache, flash, rtc, off) =
        complete_update-activated m o user apart s2 (closed c2) c5 f3 r4.2 all.active finrun
          actrun in
      let s5 = complete_update m o user s2 in
      rw (started, all.accepted)
        (
          ok,
          complete,
          ap (λ (t : FirmwareCache). t.active_slot) cache ∙ same,
          ap₂ (λ c f. verify m c f slot) cache flash
              ∙ ap₂ (λ c n. verify m c r4.2 n) (sym closes) (sym same)
              ∙ verified,
          ap (λ f. bytes_at byte f (base c + header_reserved) (length image)) flash
              ∙ ap (λ n. bytes_at byte r4.2 (n + header_reserved) (length image))
                  (sym fed.same_base)
              ∙ ap
                  (λ c.
                    bytes_at byte r4.2 (slot_offset c (inactive_slot c2) + header_reserved)
                      (length image))
                  (sym closes)
              ∙ held4.body,
          rtc ∙ ap₂ request_ota_boot (all.rtc_of ∙ er) same,
          off,
          λ a p.
              ap (λ f. byte f a) flash
              ∙ below4 a (omega (arith, fed.same_base))
              ∙ below3 a (omega (arith, fed.same_base))
              ∙ fed.below a (omega arith),
        )
