-- ===== src/Telemetry.antt =====
-- services/include/takt/services/telemetry_service.hpp and services/src/telemetry_service.cpp: the
-- records that are collected in a buffer and handed to the cache in batches.
-- `records` are those of the buffer below recordCount_. The clock's value is an argument of `tick`.
pub mod Batch
mod Tests
use takt_os.Base.{
  ℕ, ◌+◌, ◌-◌, ◌/◌, ◌%◌, ◌^◌, List, [], ◌∷◌, ◌++◌, Bool, true, false, ◌&&◌, length, get_or, ltb,
  leb, if◌then◌else◌,
}
use takt_os.Storage.{StorageManager}
use takt_os.Nvs.{le_bytes}
use takt_os.Cache
use takt_os.Cache.{CacheManager, new_cache}

pub record TelemetryRecord : Type 0 where
  pub timestamp : ℕ
  pub sensor_value : ℕ
  pub relay_state : ℕ
  pub reserved : List ℕ

pub record TelemetryService : Type 0 where
  pub cache : CacheManager
  pub upload_interval_ms : ℕ
  pub last_upload_ms : ℕ
  pub flush_pending : Bool
  pub records : List TelemetryRecord

-- The constructor.
unfoldable pub new_telemetry : (ℕ → ℕ) → ℕ → TelemetryService
new_telemetry pool pool_size = record {
  cache = new_cache pool pool_size 256;
  upload_interval_ms = 60000;
  last_upload_ms = 0;
  flush_pending = false;
  records = [];
}

abbrev pub max_records : ℕ
max_records = 64

abbrev pub telemetry_flash_offset : ℕ
telemetry_flash_offset = 0

-- The 12 bytes of a record in the memory.
abbrev pub record_bytes : TelemetryRecord → List ℕ
record_bytes r =
    le_bytes 4 r.timestamp
    ++ le_bytes 4 r.sensor_value
    ++ le_bytes 1 r.relay_state
    ++ (get_or r.reserved 0 0 ∷ get_or r.reserved 1 0 ∷ get_or r.reserved 2 0 ∷ [])

unfoldable pub buffer_bytes : List TelemetryRecord → List ℕ
buffer_bytes [] = []
buffer_bytes (r ∷ rs) = record_bytes r ++ buffer_bytes rs

pub init : TelemetryService → Bool × TelemetryService
init t = (true, t)

pub has_work : TelemetryService → Bool
has_work t = t.flush_pending

pub set_upload_interval_ms : TelemetryService → ℕ → TelemetryService
set_upload_interval_ms t ms = record t { upload_interval_ms = ms }

-- The function `record`.
unfoldable pub add_record : TelemetryService → TelemetryRecord → TelemetryService
add_record t r = record t {
  records = if ltb (length t.records) max_records then t.records ++ (r ∷ []) else t.records;
  flush_pending = true;
}

module _ {F : Type 0} (m : StorageManager F) where
  -- What `write` and `flush` of the cache return is dropped.
  abbrev pub store_batch : CacheManager → List TelemetryRecord → F → CacheManager × F
  store_batch c records f =
      let (_, c1, f1) = Cache.write m c f telemetry_flash_offset (buffer_bytes records) in
      let (_, c2, f2) = Cache.flush m c1 f1 in (c2, f2)

  unfoldable pub flush_to_flash : TelemetryService → F → TelemetryService × F
  flush_to_flash t f = elim t.records [
    | [] ↦ (t, f)
    | r ∷ rs ↦
        let (c, f1) = store_batch t.cache (r ∷ rs) f in (record t { cache = c; records = [] }, f1)
  ]

  unfoldable pub upload_batch : TelemetryService → F → TelemetryService × F
  upload_batch t f = let (t1, f1) = flush_to_flash t f in (record t1 { flush_pending = false }, f1)

  -- `now` is the uptime in milliseconds, of 32 bits; `now - lastUploadMs_` wraps.
  unfoldable pub tick : TelemetryService → ℕ → F → TelemetryService × F
  tick t uptime_us f =
      let now = uptime_us / 1000 % 2 ^ 32 in
      let (t1, f1) = upload_batch t f in
      if t.flush_pending && leb t.upload_interval_ms ((now + (2 ^ 32 - t.last_upload_ms)) % 2 ^ 32)
      then (record t1 { last_upload_ms = now }, f1)
      else (t, f)

  pub shutdown : TelemetryService → F → TelemetryService × F
  shutdown t f = flush_to_flash t f
