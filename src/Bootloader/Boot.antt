-- ===== src/Bootloader/Boot.antt =====
-- What is booted after a number of starts.
use takt_os.Base.{
  ℕ, zero, suc, ◌+◌, ◌%◌, ◌^◌, ◌<◌, ◌≡◌, refl, ap, ◌∙◌, Bool, true, false, not, ltb, ◌==◌, ◌||◌,
  ◌&&◌, if◌then◌else◌, arith, Bool-cases, inl, inr,
}
use takt_os.Storage.{StorageManager}
use takt_os.Firmware.{FirmwareCache}
use takt_os.Bootloader.{
  BootConfig, BootMode, Outcome, boot_config_magic, mode_byte, load_boot_config,
  mark_boot_successful, request_ota_boot, determine_boot_mode, validate_firmware, outcome, entry,
}
use takt_os.Bootloader.Config.{load_boot_config-save_boot_config}

-- The switch of `entry` on the result of `determineBootMode`.
outcome-choice :
    (config : BootConfig) (often reset pending first second : Bool)
    → outcome
        (if often
          then BootMode.recovery
          else if reset
          then BootMode.factory_reset
          else if pending
          then BootMode.ota_pending
          else if not first && not second
          then BootMode.emergency
          else BootMode.normal)
        config
      ≡ (if often
          then Outcome.enter_recovery
          else if reset
          then Outcome.erase_all_then_recovery
          else if pending
          then Outcome.jump_to_firmware 0
          else if first || second
          then Outcome.jump_to_firmware 0
          else Outcome.enter_emergency)
outcome-choice config true reset pending first second = refl
outcome-choice config false true pending first second = refl
outcome-choice config false false true first second = elim (Bool-cases (config.ota_slot == 0)) [
  | inl t ↦ rw t refl
  | inr t ↦ rw t refl
]
outcome-choice config false false false true second = refl
outcome-choice config false false false false true = refl
outcome-choice config false false false false false = refl

module _ {F : Type 0} (m : StorageManager F) (c : FirmwareCache) (f : F) where
  -- Starts of the boot loader, with nothing between them that marks a boot as successful.
  pub boots : ℕ → BootConfig → BootConfig
  boots zero rtc = rtc
  boots (suc n) rtc = boots n (entry m c f rtc).1

  -- What `load_boot_config` hands out always has the magic.
  loaded_magic : (rtc : BootConfig) → (load_boot_config rtc).1.magic ≡ boot_config_magic
  unfolding load_boot_config
  loaded_magic rtc = elim (Bool-cases (rtc.magic == boot_config_magic)) [
    | inl t ↦ rw t (ground arith)
    | inr t ↦ rw t refl
  ]

  -- The configuration that `entry` stores.
  counted : BootConfig → BootConfig
  counted rtc =
      let loaded = (load_boot_config rtc).1 in
      record loaded { boot_count = (loaded.boot_count + 1) % 2 ^ 8 }

  load-entry :
      (rtc : BootConfig)
      → load_boot_config (entry m c f rtc).1 ≡ (true, record (counted rtc) { crc32 = 0 })
  unfolding entry counted
  load-entry rtc = load_boot_config-save_boot_config (counted rtc) (loaded_magic rtc)

  load-boots :
      (n : ℕ) (rtc : BootConfig)
      → (load_boot_config rtc).1.boot_count < 256
      → ((load_boot_config (boots n rtc)).1.boot_count
          ≡ ((load_boot_config rtc).1.boot_count + n) % 256)
        × ((load_boot_config (boots n rtc)).1.mode ≡ (load_boot_config rtc).1.mode)
  unfolding boots counted
  load-boots zero rtc h = (omega arith, refl)
  load-boots (suc n) rtc h =
      let e = load-entry rtc in
      let k : (load_boot_config (entry m c f rtc).1).1.boot_count
          ≡ ((load_boot_config rtc).1.boot_count + 1) % 2 ^ 8 =
        ap (λ r. r.1.boot_count) e in
      let mode : (load_boot_config (entry m c f rtc).1).1.mode ≡ (load_boot_config rtc).1.mode =
        ap (λ r. r.1.mode) e in
      let (ih, ih_mode) = load-boots n (entry m c f rtc).1 (omega arith) in
      (omega (arith, ih, k), ih_mode ∙ mode)

  -- What `entry` ends in, for a count and a mode.
  entry-outcome :
      (rtc : BootConfig) (count mode : ℕ)
      → ((load_boot_config rtc).1.boot_count + 1) % 2 ^ 8 ≡ count
      → (load_boot_config rtc).1.mode ≡ mode
      → (entry m c f rtc).0 ≡ (
          if ltb 3 count
          then Outcome.enter_recovery
          else if mode == mode_byte BootMode.factory_reset
          then Outcome.erase_all_then_recovery
          else if mode == mode_byte BootMode.ota_pending
          then Outcome.jump_to_firmware 0
          else if validate_firmware m c f 0 || validate_firmware m c f 1
          then Outcome.jump_to_firmware 0
          else Outcome.enter_emergency)
  unfolding entry determine_boot_mode counted
  entry-outcome rtc count mode e e' =
      rw (load_boot_config-save_boot_config (counted rtc) (loaded_magic rtc), e, e')
        (outcome-choice (record (counted rtc) { mode = mode; boot_count = count }) (ltb 3 count)
          (mode == mode_byte BootMode.factory_reset) (mode == mode_byte BootMode.ota_pending)
          (validate_firmware m c f 0) (validate_firmware m c f 1))

  -- After a boot that was marked as successful and `n` starts that never got as far as marking, the
  -- next start enters recovery if it is the fourth or a later one, and else boots the firmware if one
  -- of the two images verifies and is an emergency if none does. The count is a byte: it is the number
  -- of starts modulo 256.
  pub entry-boots :
      (n : ℕ) (rtc : BootConfig)
      → (entry m c f (boots n (mark_boot_successful rtc))).0 ≡ (
          if ltb 3 ((n + 1) % 256)
          then Outcome.enter_recovery
          else if validate_firmware m c f 0 || validate_firmware m c f 1
          then Outcome.jump_to_firmware 0
          else Outcome.enter_emergency)
  unfolding mark_boot_successful
  entry-boots n rtc =
      let marked = mark_boot_successful rtc in
      let e : (load_boot_config marked).1.boot_count ≡ 0 =
        ap (λ r. r.1.boot_count)
          (load_boot_config-save_boot_config
            (record (load_boot_config rtc).1 { boot_count = 0; mode = 0 }) (loaded_magic rtc)) in
      let e' : (load_boot_config marked).1.mode ≡ 0 =
        ap (λ r. r.1.mode)
          (load_boot_config-save_boot_config
            (record (load_boot_config rtc).1 { boot_count = 0; mode = 0 }) (loaded_magic rtc)) in
      let (k, mode) = load-boots n marked (omega (arith, e)) in
      entry-outcome (boots n marked) ((n + 1) % 256) 0 (omega (arith, e, k)) (mode ∙ e')

  -- Once a boot into slot `slot` was requested, fewer than three starts after a success, the next start
  -- jumps to offset 0, whatever the slot, and whether or not an image verifies.
  pub entry-request_ota_boot :
      (rtc : BootConfig) (slot : ℕ)
      → (load_boot_config rtc).1.boot_count < 3
      → (entry m c f (request_ota_boot rtc slot)).0 ≡ Outcome.jump_to_firmware 0
  unfolding request_ota_boot
  entry-request_ota_boot rtc slot h =
      let wanted = record (load_boot_config rtc).1 { mode = 2; ota_slot = slot } in
      let e = load_boot_config-save_boot_config wanted (loaded_magic rtc) in
      let count : (load_boot_config (request_ota_boot rtc slot)).1.boot_count
          ≡ (load_boot_config rtc).1.boot_count =
        ap (λ r. r.1.boot_count) e in
      let mode : (load_boot_config (request_ota_boot rtc slot)).1.mode ≡ 2 = ap (λ r. r.1.mode) e in
      let low : ltb 3 ((load_boot_config rtc).1.boot_count + 1) ≡ false = ground arith in
      let run =
        entry-outcome (request_ota_boot rtc slot) ((load_boot_config rtc).1.boot_count + 1) 2
          (omega (arith, count)) mode in
      rw low at run
