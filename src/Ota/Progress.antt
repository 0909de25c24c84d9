-- ===== src/Ota/Progress.antt =====
-- What the update service knows of its progress.
use takt_os.Base.{
  ℕ, ◌+◌, ◌%◌, ◌^◌, ◌<◌, ◌≡◌, refl, ap, sym, ◌∙◌, List, Option, none, some, true, ◌==◌, ltb, arith,
  Bool-cases, inl, inr,
}
use takt_os.Base.Int.{ℤ, pos, is_positive}
use takt_os.Storage.{StorageManager}
use takt_os.Firmware.{FirmwareCache, write_chunk}
use takt_os.Recovery.{
  DfuState, Device, Outside, set_recovery, notify_progress, call_progress, set_state, is_state,
  pos_part, count_chunk, take_chunk, receive_chunk, ota_progress_event,
}
use takt_os.Recovery.Machine.{IsQuiet, with_state, with_firmware, set_state-device}
use takt_os.Recovery.Update.{is_open, chunk_received, receive_chunk-open}
use takt_os.Ota.{
  OtaService, Services, ota_callback, set_ota, call_user, on_dfu_progress, outside, feed_chunk,
}

module _ {F V : Type 0} (m : StorageManager F) (o : Outside F (Services V))
    (user : ℕ → ℕ → ℕ → Device F × Services V → Device F × Services V) where
  -- The subscribers and the other callbacks leave the device and the service alone.
  pub record IsApart : Type 0 where
    pub publish_lem : (e p q : ℕ) (s : Device F × Services V) → (o.publish e p q s).0 ≡ s.0
    pub publish_ota : (e p q : ℕ) (s : Device F × Services V) → (o.publish e p q s).1.ota ≡ s.1.ota
    pub progress_lem :
        (cb rx total : ℕ) (state : DfuState) (s : Device F × Services V)
        → (o.progress cb rx total state s).0 ≡ s.0
    pub progress_ota :
        (cb rx total : ℕ) (state : DfuState) (s : Device F × Services V)
        → (o.progress cb rx total state s).1.ota ≡ s.1.ota
    pub user_lem : (cb rx total : ℕ) (s : Device F × Services V) → (user cb rx total s).0 ≡ s.0
    pub user_ota :
        (cb rx total : ℕ) (s : Device F × Services V) → (user cb rx total s).1.ota ≡ s.1.ota

  module _ (apart : IsApart) where
    call_user_lem :
        (cb : Option ℕ) (rx total : ℕ) (s : Device F × Services V)
        → ((call_user m o user cb rx total s).0 ≡ s.0)
          × ((call_user m o user cb rx total s).1.ota ≡ s.1.ota)
    call_user_lem none rx total s = (refl, refl)
    call_user_lem (some cb) rx total s =
        (apart.user_lem cb rx total s, apart.user_ota cb rx total s)

    on_dfu_progress_lem :
        (rx total : ℕ) (s : Device F × Services V)
        → ((on_dfu_progress m o user rx total s).0 ≡ s.0)
          × ((on_dfu_progress m o user rx total s).1.ota
              ≡ record (s.1.ota) { received = rx; total_size = total })
    unfolding on_dfu_progress
    on_dfu_progress_lem rx total s =
        let ota = record (s.1.ota) { received = rx; total_size = total } in
        let s1 = call_user m o user ota.progress_cb rx total (s.0, set_ota s.1 ota) in
        let (same, kept) = call_user_lem ota.progress_cb rx total (s.0, set_ota s.1 ota) in
        (
          apart.publish_lem ota_progress_event rx total s1 ∙ same,
          apart.publish_ota ota_progress_event rx total s1 ∙ kept,
        )

    pub outside-IsQuiet : IsQuiet (outside m o user)
    outside-IsQuiet = record {
      publish_lem = apart.publish_lem;
      progress_lem = λ cb rx total state s. elim (Bool-cases (cb == ota_callback)) [
        | inl ours ↦ rw ours (on_dfu_progress_lem rx total s).0
        | inr other ↦ rw other (apart.progress_lem cb rx total state s)
      ];
    }

    -- No callback deactivates the service.
    progress-active :
        (cb : Option ℕ) (s : Device F × Services V)
        → (call_progress m (outside m o user) cb s).1.ota.active ≡ s.1.ota.active
    progress-active none s = refl
    progress-active (some cb) s =
        let r = s.0.recovery in
        elim (Bool-cases (cb == ota_callback)) [
          | inl ours ↦
              rw ours (
                ap (λ (t : OtaService). t.active) (on_dfu_progress_lem r.received r.total_size s).1)
          | inr other ↦ rw other (
              ap (λ (t : OtaService). t.active)
                (apart.progress_ota cb r.received r.total_size r.state s))
        ]

    pub set_state-active :
        (state : DfuState) (s : Device F × Services V)
        → (set_state m (outside m o user) state s).1.ota.active ≡ s.1.ota.active
    unfolding set_state notify_progress
    set_state-active state s = progress-active s.0.recovery.progress_cb (with_state s.0 state, s.1)

    count_chunk-active :
        (n : ℤ) (s : Device F × Services V)
        → (count_chunk m (outside m o user) n s).1.ota.active ≡ s.1.ota.active
    unfolding notify_progress
    count_chunk-active n s =
        let r = record (s.0.recovery) {
          received = (s.0.recovery.received + pos_part n) % 2 ^ 32;
        } in
        let told = o.publish ota_progress_event r.received r.total_size (set_recovery s.0 r, s.1) in
        progress-active told.0.recovery.progress_cb told
        ∙ ap (λ (t : OtaService). t.active)
            (apart.publish_ota ota_progress_event r.received r.total_size (set_recovery s.0 r, s.1))

    -- A chunk is counted by the callback of the service, if it is registered.
    count_chunk-ota :
        (n : ℤ) (s : Device F × Services V)
        → s.0.recovery.progress_cb ≡ some ota_callback
        → ((count_chunk m (outside m o user) n s).1.ota.received
            ≡ (s.0.recovery.received + pos_part n) % 2 ^ 32)
          × ((count_chunk m (outside m o user) n s).1.ota.total_size ≡ s.0.recovery.total_size)
    unfolding notify_progress
    count_chunk-ota n s cb =
        let r = record (s.0.recovery) {
          received = (s.0.recovery.received + pos_part n) % 2 ^ 32;
        } in
        let told = o.publish ota_progress_event r.received r.total_size (set_recovery s.0 r, s.1) in
        let same : told.0 ≡ set_recovery s.0 r =
          apart.publish_lem ota_progress_event r.received r.total_size (set_recovery s.0 r, s.1) in
        let cb1 : told.0.recovery.progress_cb ≡ some ota_callback =
          ap (λ (d : Device F). d.recovery.progress_cb) same ∙ cb in
        let e = (on_dfu_progress_lem told.0.recovery.received told.0.recovery.total_size told).1 in
        simp cb1 (
          ap (λ (t : OtaService). t.received) e ∙ ap (λ (d : Device F). d.recovery.received) same,
          ap (λ (t : OtaService). t.total_size) e
              ∙ ap (λ (d : Device F). d.recovery.total_size) same,
        )

    take_chunk-ota :
        (chunk : List ℕ) (s : Device F × Services V) (n : ℕ) (c : FirmwareCache) (f : F)
        → s.0.recovery.progress_cb ≡ some ota_callback
        → 0 < n
        → write_chunk m s.0.cache s.0.flash chunk ≡ (pos n, c, f)
        → let w = (take_chunk m (outside m o user) chunk s).2 in
          (w.ota.received ≡ (s.0.recovery.received + n) % 2 ^ 32)
          × (w.ota.total_size ≡ s.0.recovery.total_size)
    unfolding take_chunk
    take_chunk-ota chunk s n c f cb k run =
        let some_bytes : ltb 0 n ≡ true = ground arith in
        rw (run, some_bytes) (count_chunk-ota (pos n) (with_firmware s.0 (c, f), s.1) cb)

    pub take_chunk-active :
        (chunk : List ℕ) (s : Device F × Services V)
        → (take_chunk m (outside m o user) chunk s).2.ota.active ≡ s.1.ota.active
    unfolding take_chunk
    take_chunk-active chunk s =
        let (n, c, f) = write_chunk m s.0.cache s.0.flash chunk in
        elim (Bool-cases (is_positive n)) [
          | inl yes_bytes ↦ rw yes_bytes (count_chunk-active n (with_firmware s.0 (c, f), s.1))
          | inr no_bytes ↦ rw no_bytes refl
        ]

    receive_chunk-ota :
        (chunk : List ℕ) (s : Device F × Services V) (n : ℕ) (c : FirmwareCache) (f : F)
        → s.0.recovery.progress_cb ≡ some ota_callback
        → is_open s.0.recovery.state ≡ true
        → 0 < n
        → write_chunk m s.0.cache s.0.flash chunk ≡ (pos n, c, f)
        → let w = (receive_chunk m (outside m o user) chunk s).2 in
          (w.ota.received ≡ (s.0.recovery.received + n) % 2 ^ 32)
          × (w.ota.total_size ≡ s.0.recovery.total_size)
    unfolding receive_chunk
    receive_chunk-ota chunk s n c f cb open_state k run =
        let state = s.0.recovery.state in
        elim (Bool-cases (is_state DfuState.awaiting_image state)) [
          | inl awaiting ↦
              let s1 = set_state m (outside m o user) DfuState.receiving s in
              let e : s1.0 ≡ with_state s.0 DfuState.receiving =
                set_state-device m (outside m o user) outside-IsQuiet DfuState.receiving s in
              let (received, total) =
                take_chunk-ota chunk s1 n c f (ap (λ (d : Device F). d.recovery.progress_cb) e ∙ cb)
                  k (ap (λ (d : Device F). write_chunk m d.cache d.flash chunk) e ∙ run) in
              rw awaiting (
                received ∙ ap (λ (d : Device F). (d.recovery.received + n) % 2 ^ 32) e,
                total ∙ ap (λ (d : Device F). d.recovery.total_size) e,
              )
          | inr other ↦
              let receiving : is_state DfuState.receiving state ≡ true = rw other at open_state in
              rw (other, receiving) (take_chunk-ota chunk s n c f cb k run)
        ]

    pub receive_chunk-active :
        (chunk : List ℕ) (s : Device F × Services V)
        → (receive_chunk m (outside m o user) chunk s).2.ota.active ≡ s.1.ota.active
    unfolding receive_chunk
    receive_chunk-active chunk s =
        let state = s.0.recovery.state in
        elim (Bool-cases (is_state DfuState.awaiting_image state)) [
          | inl awaiting ↦ rw awaiting (
              take_chunk-active chunk (set_state m (outside m o user) DfuState.receiving s)
              ∙ set_state-active DfuState.receiving s)
          | inr other ↦ elim (Bool-cases (is_state DfuState.receiving state)) [
            | inl receiving ↦ rw (other, receiving) (take_chunk-active chunk s)
            | inr closed ↦ rw (other, closed) refl
          ]
        ]

    -- Behind an accepted chunk of `n` bytes: the recovery manager tells the service its own count and
    -- total, and then the service adds the `n` bytes to that count once more.
    pub feed_chunk_recounts :
        (chunk : List ℕ) (s : Device F × Services V) (n : ℕ) (c : FirmwareCache) (f : F)
        → s.1.ota.active ≡ true
        → s.0.recovery.progress_cb ≡ some ota_callback
        → is_open s.0.recovery.state ≡ true
        → 0 < n
        → write_chunk m s.0.cache s.0.flash chunk ≡ (pos n, c, f)
        → let (result, d, w) = feed_chunk m o user chunk s in
          (result ≡ pos n)
          × (d.recovery.received ≡ (s.0.recovery.received + n) % 2 ^ 32)
          × (w.ota.received ≡ (d.recovery.received + n) % 2 ^ 32)
          × (w.ota.total_size ≡ s.0.recovery.total_size)
    unfolding feed_chunk
    feed_chunk_recounts chunk s n c f on cb open_state k run =
        let (told, device) =
          receive_chunk-open m (outside m o user) outside-IsQuiet chunk s n c f open_state k run in
        let (received, total) = receive_chunk-ota chunk s n c f cb open_state k run in
        let count = ap (λ (d : Device F). d.recovery.received) device in
        let some_bytes : ltb 0 n ≡ true = ground arith in
        simp on (
          rw (told, some_bytes)
            (refl, count, ap (λ r. (r + n) % 2 ^ 32) (received ∙ sym count), total))

    -- The service passes a chunk on, and stays active.
    pub feed_chunk-open :
        (chunk : List ℕ) (s : Device F × Services V) (n : ℕ) (c : FirmwareCache) (f : F)
        → s.1.ota.active ≡ true
        → is_open s.0.recovery.state ≡ true
        → 0 < n
        → write_chunk m s.0.cache s.0.flash chunk ≡ (pos n, c, f)
        → let (result, d, w) = feed_chunk m o user chunk s in
          (result ≡ pos n) × (d ≡ chunk_received s.0 n (c, f)) × (w.ota.active ≡ true)
    unfolding feed_chunk
    feed_chunk-open chunk s n c f on open_state k run =
        let (told, device) =
          receive_chunk-open m (outside m o user) outside-IsQuiet chunk s n c f open_state k run in
        let some_bytes : ltb 0 n ≡ true = ground arith in
        simp on (rw (told, some_bytes) (refl, device, receive_chunk-active chunk s ∙ on))
