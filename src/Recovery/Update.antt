-- ===== src/Recovery/Update.antt =====
-- A chunk on its way into the flash, with quiet callbacks.
use takt_os.Base.{
  ℕ, ◌+◌, ◌%◌, ◌^◌, ◌<◌, ◌≡◌, refl, ap, ◌∙◌, List, Bool, true, false, ◌||◌, ltb, arith, Bool-cases,
  inl, inr,
}
use takt_os.Base.Int.{ℤ, pos}
use takt_os.Storage.{StorageManager}
use takt_os.Firmware.{FirmwareCache, write_chunk}
use takt_os.Recovery.{
  DfuState, Device, Outside, set_recovery, set_state, is_state, pos_part, count_chunk, take_chunk,
  receive_chunk, ota_progress_event,
}
use takt_os.Recovery.Machine.{
  IsQuiet, with_state, with_firmware, notify_progress-device, set_state-device,
}

-- The states in which `receiveChunk` takes a chunk.
abbrev pub is_open : DfuState → Bool
is_open state = is_state DfuState.awaiting_image state || is_state DfuState.receiving state

-- The device after a chunk of `n` bytes, with what the firmware cache left.
abbrev pub chunk_received : {F : Type 0} → Device F → ℕ → FirmwareCache × F → Device F
chunk_received d n p = record (with_firmware d p) {
  recovery = record (d.recovery) {
    state = DfuState.receiving;
    received = (d.recovery.received + n) % 2 ^ 32;
  };
}

receiving_same :
    {F : Type 0} (d : Device F) (state : DfuState)
    → d.recovery.state ≡ state
    → is_state DfuState.awaiting_image state ≡ false
    → is_open state ≡ true
    → d ≡ with_state d DfuState.receiving
receiving_same d DfuState.receiving e a h = λ i. with_state d (e i)
receiving_same d DfuState.idle e a h = absurd (ground arith)
receiving_same d DfuState.awaiting_image e a h = absurd (ground arith)
receiving_same d DfuState.verifying e a h = absurd (ground arith)
receiving_same d DfuState.installing e a h = absurd (ground arith)
receiving_same d DfuState.complete e a h = absurd (ground arith)
receiving_same d DfuState.failed e a h = absurd (ground arith)
receiving_same d DfuState.rolling_back e a h = absurd (ground arith)

module _ {F W : Type 0} (m : StorageManager F) (o : Outside F W) (quiet : IsQuiet o) where
  pub count_chunk-device :
      (n : ℤ) (s : Device F × W)
      → (count_chunk m o n s).0
        ≡ set_recovery s.0
            (record (s.0.recovery) { received = (s.0.recovery.received + pos_part n) % 2 ^ 32 })
  count_chunk-device n s =
      let r = record (s.0.recovery) { received = (s.0.recovery.received + pos_part n) % 2 ^ 32 } in
      let told = o.publish ota_progress_event r.received r.total_size (set_recovery s.0 r, s.1) in
      notify_progress-device m o quiet told
      ∙ quiet.publish_lem ota_progress_event r.received r.total_size (set_recovery s.0 r, s.1)

  -- The device that `set_recovery` and `count_chunk` leave is told by the device before.
  take_chunk-device :
      (chunk : List ℕ) (s : Device F × W) (d : Device F) (n : ℕ) (c : FirmwareCache) (f : F)
      → s.0 ≡ with_state d DfuState.receiving
      → 0 < n
      → write_chunk m d.cache d.flash chunk ≡ (pos n, c, f)
      → ((take_chunk m o chunk s).0 ≡ pos n)
        × ((take_chunk m o chunk s).1 ≡ chunk_received d n (c, f))
  unfolding take_chunk
  take_chunk-device chunk s d n c f e k run =
      let run1 : write_chunk m s.0.cache s.0.flash chunk ≡ (pos n, c, f) =
        ap (λ (x : Device F). write_chunk m x.cache x.flash chunk) e ∙ run in
      let some_bytes : ltb 0 n ≡ true = ground arith in
      rw (run1, some_bytes)
        (
          refl,
          count_chunk-device (pos n) (with_firmware s.0 (c, f), s.1)
              ∙ ap
                  (λ (x : Device F).
                    set_recovery (with_firmware x (c, f))
                      (record (x.recovery) { received = (x.recovery.received + n) % 2 ^ 32 }))
                  e,
        )

  -- An accepted chunk: the step into `receiving`, the write, and the count.
  pub receive_chunk-open :
      (chunk : List ℕ) (s : Device F × W) (n : ℕ) (c : FirmwareCache) (f : F)
      → is_open s.0.recovery.state ≡ true
      → 0 < n
      → write_chunk m s.0.cache s.0.flash chunk ≡ (pos n, c, f)
      → ((receive_chunk m o chunk s).0 ≡ pos n)
        × ((receive_chunk m o chunk s).1 ≡ chunk_received s.0 n (c, f))
  unfolding receive_chunk
  receive_chunk-open chunk s n c f h k run =
      let state = s.0.recovery.state in
      elim (Bool-cases (is_state DfuState.awaiting_image state)) [
        | inl awaiting ↦ rw awaiting (
            take_chunk-device chunk (set_state m o DfuState.receiving s) s.0 n c f
              (set_state-device m o quiet DfuState.receiving s) k run)
        | inr other ↦
            let receiving : is_state DfuState.receiving state ≡ true = rw other at h in
            rw (other, receiving)
              (take_chunk-device chunk s s.0 n c f (receiving_same s.0 state refl other h) k run)
      ]
