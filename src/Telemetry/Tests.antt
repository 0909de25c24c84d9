-- ===== src/Telemetry/Tests.antt =====
-- Runs of the telemetry service over the memory backend, and its theorems at such runs.
use takt_os.Base.{◌≡◌, refl, [], ◌∷◌}
use takt_os.Storage.Memory.{Memory}
use takt_os.Cache
use takt_os.Telemetry.{TelemetryRecord, TelemetryService, new_telemetry, buffer_bytes}

abbrev sample : TelemetryRecord
sample = record { timestamp = 1000; sensor_value = 513; relay_state = 1; reserved = [] }

abbrev service : TelemetryService
service = new_telemetry (λ _. 0) 1024

abbrev erased : Memory
erased = λ _. 255

buffer_bytes_run : buffer_bytes (sample ∷ []) ≡ 232 ∷ 3 ∷ 0 ∷ 0 ∷ 1 ∷ 2 ∷ 0 ∷ 0 ∷ 1 ∷ 0 ∷ 0 ∷ 0 ∷ []
unfolding buffer_bytes
buffer_bytes_run = refl
