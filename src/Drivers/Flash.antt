-- ===== src/Drivers/Flash.antt =====
-- The partition backend as a flash backend of the storage manager.
use takt_os.Base.{
  ℕ, zero, suc, ◌+◌, ◌-◌, ◌*◌, ◌≡◌, refl, sym, ap, ◌∙◌, List, [], ◌∷◌, none, some, Bool, true,
  false, ltb, length, get_or, if◌then◌else◌, false≢true, Bool-cases, inl, inr,
}
use takt_os.Base.Int.{ℤ, pos, negsuc, minus_one, as_int, is_negative}
use takt_os.Storage.{BackendOffer}
use takt_os.Storage.Backend.{FlashLaws, bytes_at, within}
use takt_os.Drivers.Partition.{
  EspPartition, PartitionApi, Device, code_of, end_of, PartitionLaws, device_byte, partition_read,
  partition_write, partition_erase, partition_offer, partition_backend, create_partition_backend,
}

true≢false : true ≡ false → ⊥
true≢false e = false≢true (sym e)

-- A code that is not negative comes from a call that succeeded.
code_ok : (ok : Bool) (code : ℤ) → is_negative (code_of ok code) ≡ false → ok ≡ true
code_ok true code h = refl
code_ok false code h = absurd (true≢false h)

is_error : ℤ → Bool
is_error (pos n) = false
is_error (negsuc n) = true

erased_ok : (ok : Bool) → code_of ok (pos 0) ≡ pos 0 → ok ≡ true
unfolding is_error
erased_ok true h = refl
erased_ok false h = absurd (true≢false (ap is_error h))

bytes_at-device :
    {F : Type 0} (byte : EspPartition → F → ℕ → ℕ) (p : EspPartition) (f : F) (offset n : ℕ)
    → bytes_at (device_byte byte) (some p, f) offset n ≡ bytes_at (byte p) f offset n
bytes_at-device byte p f offset zero = refl
bytes_at-device byte p f offset (suc n) =
    ap (◌∷◌ (byte p f offset)) (bytes_at-device byte p f (offset + 1) n)

module _ {F : Type 0} (api : PartitionApi F) (byte : EspPartition → F → ℕ → ℕ)
    (laws : PartitionLaws api byte) where
  read_laws :
      (s : Device F) (offset n : ℕ)
      → is_negative (partition_read api s offset n).0 ≡ false
      → partition_read api s offset n ≡ (as_int n, bytes_at (device_byte byte) s offset n)
  unfolding partition_read
  read_laws (none, f) offset n h = absurd (true≢false h)
  read_laws (some p, f) offset n h = elim (Bool-cases (ltb p.size (end_of offset n))) [
    | inl out ↦ absurd (true≢false (rw out at h))
    | inr fits ↦
        let ok = code_ok (api.read p f offset n).0 (as_int n) (rw fits at h) in
        rw (fits, ok)
          (ap (λ bytes. (as_int n, bytes))
            (laws.read_ok p f offset n ok ∙ sym (bytes_at-device byte p f offset n)))
  ]

  write_laws :
      (s : Device F) (offset : ℕ) (buf : List ℕ)
      → is_negative (partition_write api s offset buf).0 ≡ false
      → ((a : ℕ) → within offset (length buf) a ≡ true → device_byte byte s a ≡ 255)
      → (a : ℕ)
      → device_byte byte (partition_write api s offset buf).1 a
        ≡ (if within offset (length buf) a then get_or buf (a - offset) 0 else device_byte byte s a)
  unfolding partition_write
  write_laws (none, f) offset buf h erased a = absurd (true≢false h)
  write_laws (some p, f) offset buf h erased a =
      elim (Bool-cases (ltb p.size (end_of offset (length buf)))) [
        | inl out ↦ absurd (true≢false (rw out at h))
        | inr fits ↦
            let ok = code_ok (api.write p f offset buf).0 (as_int (length buf)) (rw fits at h) in
            rw fits (laws.write_ok p f offset buf ok erased a)
      ]

  write_codes :
      (s : Device F) (offset : ℕ) (buf : List ℕ)
      → is_negative (partition_write api s offset buf).0 ≡ false
      → (partition_write api s offset buf).0 ≡ as_int (length buf)
  unfolding partition_write
  write_codes (none, f) offset buf h = absurd (true≢false h)
  write_codes (some p, f) offset buf h =
      elim (Bool-cases (ltb p.size (end_of offset (length buf)))) [
        | inl out ↦ absurd (true≢false (rw out at h))
        | inr fits ↦
            let ok = code_ok (api.write p f offset buf).0 (as_int (length buf)) (rw fits at h) in
            rw (fits, ok) refl
      ]

  erase_laws :
      (s : Device F) (offset n a : ℕ)
      → (partition_erase api s offset n).0 ≡ pos 0
      → device_byte byte (partition_erase api s offset n).1 a
        ≡ (if within offset n a then 255 else device_byte byte s a)
  unfolding partition_erase is_error
  erase_laws (none, f) offset n a h = absurd (true≢false (ap is_error h))
  erase_laws (some p, f) offset n a h =
      laws.erase_ok p f offset n a (erased_ok (api.erase_range p f offset n).0 h)

  -- The partition backend meets the flash laws, on which the storage manager and all above it rely,
  -- whatever partition the static context points to at a call, if ESP-IDF's partition functions do
  -- what they are documented to do.
  pub partition_backend-FlashLaws :
      (size : ℕ) → FlashLaws (partition_backend api size) (device_byte byte)
  partition_backend-FlashLaws size = record {
    read_lem = read_laws;
    erase_lem = λ s k a h. erase_laws s (k * 4096) 4096 a h;
    write_lem = write_laws;
    write_code = write_codes;
  }

module _ {F : Type 0} (api : PartitionApi F) where
  pub create_found :
      (offer : BackendOffer (Device F)) (label : List ℕ) (s : Device F) (p : EspPartition)
      → api.find_first label ≡ some p
      → create_partition_backend api offer label s
        ≡ (true, partition_offer api p.size, (some p, s.1))
  unfolding create_partition_backend
  create_found offer label s p here = rw (create_partition_backend, here)

  create_missing :
      (offer : BackendOffer (Device F)) (label : List ℕ) (s : Device F)
      → api.find_first label ≡ none
      → create_partition_backend api offer label s ≡ (false, offer, (none, s.1))
  unfolding create_partition_backend
  create_missing offer label s gone = rw (create_partition_backend, gone)

  -- A second call of createPartitionBackend, for a label that no partition has, fails, and takes the
  -- partition from the backend that the first call made too: its every read, write and erase fails
  -- from then on, and the flash stays as it is.
  pub create_partition_backend_detaches :
      (offer1 offer2 : BackendOffer (Device F)) (label1 label2 : List ℕ) (s : Device F)
      (p : EspPartition)
      → api.find_first label1 ≡ some p
      → api.find_first label2 ≡ none
      → let (ok1, made, s1) = create_partition_backend api offer1 label1 s in
        let (ok2, _, s2) = create_partition_backend api offer2 label2 s1 in
        (ok1 ≡ true)
        × (made ≡ partition_offer api p.size)
        × (ok2 ≡ false)
        × ((offset len : ℕ) → partition_read api s2 offset len ≡ (minus_one, []))
        × ((offset : ℕ) (buf : List ℕ) → partition_write api s2 offset buf ≡ (minus_one, s2))
        × ((offset len : ℕ) → partition_erase api s2 offset len ≡ (minus_one, s2))
        × (s2.1 ≡ s.1)
  unfolding partition_read partition_write partition_erase
  create_partition_backend_detaches offer1 offer2 label1 label2 s p here gone =
      rw (create_found offer1 label1 s p here, create_missing offer2 label2 (some p, s.1) gone)
        (refl, refl, refl, λ offset len. refl, λ offset buf. refl, λ offset len. refl, refl)
