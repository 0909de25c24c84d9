-- ===== src/Bootloader/Config.antt =====
-- The boot configuration: what is saved is loaded, and what of it is checked.
use takt_os.Base.{
  ℕ, ◌<◌, ◌≡◌, ◌≢◌, refl, sym, ◌∙◌, [], ◌∷◌, ◌++◌, true, false, ◌==◌, arith, All, ==_refl,
  Bool-cases, inl, inr, All-append,
}
use takt_os.Crc32.{crc32_config, compute}
use takt_os.Crc32.Linear.{compute-eq-crc32_config}
use takt_os.Crc32.Detect.{compute_detects}
use takt_os.Storage.{StorageManager}
use takt_os.Firmware.{FirmwareCache, le32}
use takt_os.Bootloader.{
  BootConfig, boot_config_magic, config_bytes, load_boot_config, save_boot_config,
  determine_boot_mode,
}

-- A configuration with the right magic that was saved is loaded again, with its checksum right
-- and cleared.
pub load_boot_config-save_boot_config :
    (config : BootConfig)
    → config.magic ≡ boot_config_magic
    → load_boot_config (save_boot_config config) ≡ (true, record config { crc32 = 0 })
unfolding load_boot_config save_boot_config
load_boot_config-save_boot_config config e =
    let magic : (config.magic == boot_config_magic) ≡ true = ground arith in
    let sum : (crc32_config (config_bytes (record config { crc32 = 0 }))
          == crc32_config (config_bytes (record config { crc32 = 0 })))
        ≡ true =
      ==_refl (crc32_config (config_bytes (record config { crc32 = 0 }))) in
    rw (magic, sum) refl

-- The fields fit their C types.
pub record IsBytes (config : BootConfig) : Type 0 where
  pub mode_in : config.mode < 256
  pub count_in : config.boot_count < 256
  pub slot_in : config.ota_slot < 256
  pub padding_in : config.padding < 256

-- A configuration of bytes with the right magic whose boot count was changed after it was
-- saved is reported as wrong.
pub load_boot_config_detects :
    (config : BootConfig) (count : ℕ)
    → IsBytes config
    → config.magic ≡ boot_config_magic
    → count < 256
    → count ≢ config.boot_count
    → (load_boot_config (record (save_boot_config config) { boot_count = count })).0 ≡ false
unfolding load_boot_config save_boot_config config_bytes le32
load_boot_config_detects config count v e small ne =
    let magic : (config.magic == boot_config_magic) ≡ true = ground arith in
    let front = le32 config.magic ++ (config.mode ∷ []) in
    let back = config.ota_slot ∷ config.padding ∷ le32 0 in
    let front_in : All (λ b. b < 256) front =
      (omega arith, (omega arith, (omega arith, (omega arith, (v.mode_in, tt))))) in
    let back_in : All (λ b. b < 256) back =
      (v.slot_in, (v.padding_in, (omega arith, (omega arith, (omega arith, (omega arith, tt)))))) in
    let sum : (x : ℕ) → x < 256 → compute (front ++ x ∷ back) ≡ crc32_config (front ++ x ∷ back) =
      λ x h.
        compute-eq-crc32_config (front ++ x ∷ back)
          (All-append (λ b. b < 256) front (x ∷ back) front_in (h, back_in)) in
    let differ =
      compute_detects front count config.boot_count back front_in small v.count_in back_in ne in
    let a = crc32_config (front ++ count ∷ back) in
    let b = crc32_config (front ++ config.boot_count ∷ back) in
    let apart : (a == b) ≡ false = elim (Bool-cases (a == b)) [
      | inr t ↦ t
      | inl t ↦
          let eq : a ≡ b = ground arith in
          absurd (differ (sum count small ∙ eq ∙ sym (sum config.boot_count v.count_in)))
    ] in
    rw magic apart

-- The boot mode does not depend on the stored checksum: the result of `loadBootConfig` is not
-- used, so a configuration that is reported as wrong decides what is booted all the same.
pub determine_boot_mode_unchecked :
    {F : Type 0} (m : StorageManager F) (c : FirmwareCache) (f : F) (rtc : BootConfig) (crc : ℕ)
    → determine_boot_mode m c f (record rtc { crc32 = crc }) ≡ determine_boot_mode m c f rtc
unfolding determine_boot_mode load_boot_config
determine_boot_mode_unchecked m c f rtc crc = elim (Bool-cases (rtc.magic == boot_config_magic)) [
  | inl t ↦ rw t refl
  | inr t ↦ rw t refl
]
