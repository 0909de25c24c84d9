-- ===== src/Recovery/Machine.antt =====
-- The states of an update: how it ends, and a main loop that does not.
use takt_os.Base.{
  ℕ, zero, suc, ◌≡◌, refl, ap, ◌∙◌, Option, none, some, Bool, true, false, ◌&&◌, ◌||◌, not,
  if◌then◌else◌, arith, Bool-cases, inl, inr,
}
use takt_os.Storage.{StorageManager}
use takt_os.Firmware.{FirmwareCache, inactive_slot, finalize_write, activate_slot}
use takt_os.Bootloader.{request_ota_boot}
use takt_os.Recovery.{
  DfuState, Device, Outside, set_recovery, notify_progress, set_state, call_progress,
  start_dfu_listener, finalize_dfu, tick, run_loop, run, is_state,
}

-- The subscribers and the progress callbacks leave the device alone.
pub record IsQuiet {F W : Type 0} (o : Outside F W) : Type 0 where
  pub publish_lem : (e p q : ℕ) (s : Device F × W) → (o.publish e p q s).0 ≡ s.0
  pub progress_lem :
      (cb received total : ℕ) (state : DfuState) (s : Device F × W)
      → (o.progress cb received total state s).0 ≡ s.0

abbrev pub with_state : {F : Type 0} → Device F → DfuState → Device F
with_state d state = set_recovery d (record (d.recovery) { state = state })

-- A device whose firmware cache and flash have changed.
abbrev pub with_firmware : {F : Type 0} → Device F → FirmwareCache × F → Device F
with_firmware d p = record d { cache = p.0; flash = p.1 }

module _ {F : Type 0} (m : StorageManager F) where
  -- The device after `finalizeWrite`, and after `activateSlot` of the inactive slot; and their results.
  abbrev pub finalized : Device F → Device F
  finalized d = let r = finalize_write m d.cache d.flash in with_firmware d (r.1, r.2)

  abbrev pub is_finalized : Device F → Bool
  is_finalized d = (finalize_write m d.cache d.flash).0

  abbrev pub activated : Device F → Device F
  activated d =
      let r = activate_slot m d.cache d.flash (inactive_slot d.cache) in with_firmware d (r.1, r.2)

  abbrev pub is_activated : Device F → Bool
  is_activated d = (activate_slot m d.cache d.flash (inactive_slot d.cache)).0

module _ {F W : Type 0} (m : StorageManager F) (o : Outside F W) (quiet : IsQuiet o) where
  call_progress-device : (cb : Option ℕ) (s : Device F × W) → (call_progress m o cb s).0 ≡ s.0
  call_progress-device none s = refl
  call_progress-device (some cb) s =
      quiet.progress_lem cb s.0.recovery.received s.0.recovery.total_size s.0.recovery.state s

  pub notify_progress-device : (s : Device F × W) → (notify_progress m o s).0 ≡ s.0
  unfolding notify_progress
  notify_progress-device s = call_progress-device s.0.recovery.progress_cb s

  pub set_state-device :
      (state : DfuState) (s : Device F × W) → (set_state m o state s).0 ≡ with_state s.0 state
  unfolding set_state
  set_state-device state s = notify_progress-device (with_state s.0 state, s.1)

  -- A quiet `finalizeDfu`, on every branch: it succeeds exactly if the image is finalized and its slot
  -- activated; then the state is complete and the boot into that slot is requested, and else the
  -- state is failed and the boot configuration stays. The cache and the flash are those that the
  -- firmware cache leaves.
  pub finalize_dfu_lem :
      (s : Device F × W)
      → let d = finalized m s.0 in
        ((finalize_dfu m o s).0 ≡ (is_finalized m s.0 && is_activated m d))
        × ((finalize_dfu m o s).1 ≡ (
            if not (is_finalized m s.0)
            then with_state d DfuState.failed
            else if not (is_activated m d)
            then with_state (activated m d) DfuState.failed
            else record (with_state (activated m d) DfuState.complete) {
              rtc = request_ota_boot s.0.rtc (inactive_slot d.cache);
            }))
  unfolding finalize_dfu
  finalize_dfu_lem s =
      let s1 = set_state m o DfuState.verifying s in
      let e1 : s1.0 ≡ with_state s.0 DfuState.verifying = set_state-device DfuState.verifying s in
      let s2 : Device F × W = (finalized m s1.0, s1.1) in
      let s3 = set_state m o DfuState.installing s2 in
      let e3 : s3.0 ≡ with_state (finalized m s.0) DfuState.installing =
        set_state-device DfuState.installing s2
        ∙ ap (λ (d : Device F). with_state (finalized m d) DfuState.installing) e1 in
      let s4 : Device F × W = (activated m s3.0, s3.1) in
      elim (Bool-cases (is_finalized m s.0)) [
        | inr bad ↦
            let bad1 : is_finalized m s1.0 ≡ false = ap (is_finalized m) e1 ∙ bad in
            rw (bad1, bad)
              (
                refl,
                quiet.publish_lem 0x0203 0 0 (set_state m o DfuState.failed s2)
                    ∙ (set_state-device DfuState.failed s2
                        ∙ ap (λ (d : Device F). with_state (finalized m d) DfuState.failed) e1),
              )
        | inl good ↦
            let good1 : is_finalized m s1.0 ≡ true = ap (is_finalized m) e1 ∙ good in
            elim (Bool-cases (is_activated m (finalized m s.0))) [
              | inr bad ↦
                  let bad3 : is_activated m s3.0 ≡ false = ap (is_activated m) e3 ∙ bad in
                  rw (good1, good, bad3, bad)
                    (
                      refl,
                      set_state-device DfuState.failed s4
                          ∙ ap (λ (d : Device F). with_state (activated m d) DfuState.failed) e3,
                    )
              | inl active ↦
                  let active3 : is_activated m s3.0 ≡ true = ap (is_activated m) e3 ∙ active in
                  let told : (o.publish 0x0202 0 0 (set_state m o DfuState.complete s4)).0
                      ≡ with_state (activated m s3.0) DfuState.complete =
                    quiet.publish_lem 0x0202 0 0 (set_state m o DfuState.complete s4)
                    ∙ set_state-device DfuState.complete s4 in
                  rw (good1, good, active3, active)
                    (
                      refl,
                      ap
                            (λ (d : Device F). record d {
                              rtc = request_ota_boot d.rtc (inactive_slot s3.0.cache);
                            })
                            told
                          ∙ ap
                              (λ (d : Device F).
                                record (with_state (activated m d) DfuState.complete) {
                                  rtc = request_ota_boot d.rtc (inactive_slot d.cache);
                                })
                              e3,
                    )
            ]
      ]

  -- The branch of `finalizeDfu` in which all goes well.
  pub finalize_dfu-activated :
      (s : Device F × W) (c1 c2 : FirmwareCache) (f1 f2 : F)
      → finalize_write m s.0.cache s.0.flash ≡ (true, c1, f1)
      → activate_slot m c1 f1 (inactive_slot c1) ≡ (true, c2, f2)
      → ((finalize_dfu m o s).0 ≡ true)
        × ((finalize_dfu m o s).1
            ≡ record (with_state (with_firmware s.0 (c2, f2)) DfuState.complete) {
              rtc = request_ota_boot s.0.rtc (inactive_slot c1);
            })
  finalize_dfu-activated s c1 c2 f1 f2 fin act =
      let (ok, device) = finalize_dfu_lem s in
      let fin0 : is_finalized m s.0 ≡ true = ap (λ r. r.0) fin in
      let left : finalized m s.0 ≡ with_firmware s.0 (c1, f1) =
        ap (λ r. with_firmware s.0 (r.1, r.2)) fin in
      let act0 : is_activated m (finalized m s.0) ≡ true =
        ap (is_activated m) left ∙ ap (λ r. r.0) act in
      let last : activated m (finalized m s.0) ≡ with_firmware s.0 (c2, f2) =
        ap (activated m) left ∙ ap (λ r. with_firmware s.0 (r.1, r.2)) act in
      (
        ok ∙ rw (fin0, act0) refl,
        device
            ∙ rw (fin0, act0)
                (λ i. record (with_state (last i) DfuState.complete) {
                  rtc = request_ota_boot s.0.rtc (inactive_slot (left i).cache);
                }),
      )

  tick-state : (s : Device F × W) → (tick m o s).0.recovery.state ≡ s.0.recovery.state
  unfolding tick
  tick-state s = ground arith

  run_loop-awaiting :
      (fuel : ℕ) (s : Device F × W)
      → s.0.recovery.state ≡ DfuState.awaiting_image
      → run_loop m o fuel s ≡ none
  unfolding run_loop
  run_loop-awaiting zero s e = refl
  run_loop-awaiting (suc fuel) s e =
      let go : (is_state DfuState.complete s.0.recovery.state
            || is_state DfuState.failed s.0.recovery.state)
          ≡ false =
        rw e refl in
      rw go (run_loop-awaiting fuel (tick m o s) (tick-state s ∙ e))

  -- With quiet callbacks the main loop of the recovery never ends, on any channel and from any state:
  -- `tick` hands no data on, so it waits for an image for ever.
  pub run_hangs : (fuel : ℕ) (s : Device F × W) → run m o fuel s ≡ none
  unfolding run start_dfu_listener
  run_hangs fuel s =
      let (d1, w1) = set_state m o DfuState.awaiting_image s in
      let e : d1.recovery.state ≡ DfuState.awaiting_image =
        ap (λ (d : Device F). d.recovery.state) (set_state-device DfuState.awaiting_image s) in
      run_loop-awaiting fuel _ e
