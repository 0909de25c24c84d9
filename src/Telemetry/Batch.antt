-- ===== src/Telemetry/Batch.antt =====
-- What a batch of records leaves in the cache.
use mathlib.Core.List.{append-nil, append_assoc}
use takt_os.Base.{
  ◌≤◌, ◌≡◌, refl, ap, sym, ◌∙◌, List, [], ◌∷◌, ◌++◌, ap₂, tests, Bool-cases, inl, inr, Bool, true,
  length, length-append, take, take-all, take-append_full, ltb, if◌then◌else◌, arith,
}
use takt_os.Cache
use takt_os.Telemetry.{TelemetryRecord, TelemetryService, max_records, add_record}

-- The records, in order.
abbrev pub record_all : TelemetryService → List TelemetryRecord → TelemetryService
record_all t [] = t
record_all t (r ∷ rs) = record_all (add_record t r) rs

abbrev pub pending_behind : Bool → List TelemetryRecord → Bool
pending_behind pending [] = pending
pending_behind pending (r ∷ rs) = true

pending_behind-true : (rs : List TelemetryRecord) → pending_behind true rs ≡ true
pending_behind-true [] = refl
pending_behind-true (r ∷ rs) = refl

abbrev push_record : List TelemetryRecord → TelemetryRecord → List TelemetryRecord
push_record xs r = if ltb (length xs) max_records then xs ++ (r ∷ []) else xs

push_record_lem :
    (xs rs : List TelemetryRecord) (r : TelemetryRecord)
    → length xs ≤ 64
    → (take 64 (push_record xs r ++ rs) ≡ take 64 (xs ++ (r ∷ rs)))
      × (length (push_record xs r) ≤ 64)
push_record_lem xs rs r h = elim (Bool-cases (ltb (length xs) 64)) [
  | inl room ↦
      rw room
        (ap (take 64) (append_assoc xs (r ∷ []) rs), omega (tests, room, length-append xs (r ∷ [])))
  | inr full ↦
      let whole : 64 ≤ length xs = ground (arith, full) in
      rw full (take-append_full 64 xs rs whole ∙ sym (take-append_full 64 xs (r ∷ rs) whole), h)
]

-- The buffer holds the records of before and the new ones, up to its 64.
pub record_all_lem :
    (rs : List TelemetryRecord) (t : TelemetryService)
    → length t.records ≤ 64
    → record_all t rs ≡ record t {
      records = take 64 (t.records ++ rs);
      flush_pending = pending_behind t.flush_pending rs;
    }
unfolding add_record
record_all_lem [] t h =
    ap (λ xs. record t { records = xs })
      (sym (take-all 64 t.records h) ∙ ap (take 64) (sym (append-nil t.records)))
record_all_lem (r ∷ rs) t h =
    let (same, short) = push_record_lem t.records rs r h in
    record_all_lem rs (add_record t r) short
    ∙ ap₂ (λ xs p. record t { records = xs; flush_pending = p }) same (pending_behind-true rs)
