-- ===== src/Firmware/Update.antt =====
-- An update from `beginWrite` to `finalizeWrite`, on a flash with sectors of 4096 bytes.
use takt_os.Base.{
  ℕ, ◌+◌, ◌-◌, ◌*◌, ◌/◌, ◌%◌, ◌^◌, ◌≤◌, ◌<◌, ◌≡◌, refl, ap, ap₂, subst, sym, ◌∙◌, List, [], ◌++◌,
  some, true, false, ltb, length, length-append, get_or, arith,
}
use takt_os.Base.Int.{pos, as_int, as_int_small, is_negative}
use takt_os.Crc32
use takt_os.Crc32.Detect.{update-append}
use takt_os.Storage
use takt_os.Storage.{FlashBackend, StorageManager}
use takt_os.Storage.Backend.{FlashLaws, Reliable, bytes_at}
use takt_os.Storage.Read.{bytes_at-add, bytes_at-eq, bytes_at-same}
use takt_os.Storage.Write.{Written, write_lem, write_succeeds}
use takt_os.Firmware.{
  FirmwareCache, header_reserved, slot_offset, inactive_slot, add_u32, begin_write, write_chunk,
}

-- Where the inactive slot begins.
abbrev pub base : FirmwareCache → ℕ
base c = slot_offset c (inactive_slot c)

-- An update has stored the bytes `done` so far.
pub record IsWriting {F : Type 0} (byte : F → ℕ → ℕ) (c : FirmwareCache) (f : F) (done : List ℕ)
    : Type 0 where
  pub writes : c.writing ≡ true
  pub offset_at : c.write_offset ≡ header_reserved + length done
  pub crc_of : c.write_crc ≡ Crc32.update Crc32.initial done
  pub stored : bytes_at byte f (base c + header_reserved) (length done) ≡ done

-- The state after an accepted `beginWrite`.
abbrev pub begun : FirmwareCache → ℕ → ℕ → FirmwareCache
begun c image_size version = record c {
  write_offset = header_reserved;
  write_crc = Crc32.initial;
  write_image_size = image_size;
  write_version = version;
  writing = true;
}

-- The state after a chunk.
abbrev pub chunk_written : FirmwareCache → List ℕ → FirmwareCache
chunk_written c chunk = record c {
  write_crc = Crc32.update c.write_crc chunk;
  write_offset = (c.write_offset + length chunk) % 2 ^ 32;
}

module _ {F : Type 0} (m : StorageManager F) (b : FlashBackend F) (byte : F → ℕ → ℕ)
    (laws : FlashLaws b byte) (reliable : Reliable b) (installed : m.backend ≡ some b)
    (small : b.total_size < 2 ^ 31) (sectors : b.sector_size ≡ 4096)
    (whole : b.total_size % 4096 ≡ 0) where
  pub write_works :
      (f : F) (offset : ℕ) (buf : List ℕ)
      → 0 < length buf
      → offset + length buf ≤ b.total_size
      → (is_negative (Storage.write m f offset buf).0 ≡ false)
        × Written byte 4096 f offset buf (Storage.write m f offset buf).1
  write_works f offset buf h k =
      let counted : b.total_size ≡ b.total_size / 4096 * b.sector_size = rw sectors (omega arith) in
      let ok =
        write_succeeds b reliable (omega arith) m f offset (b.total_size / 4096) buf installed
          (omega arith) counted h k in
      let effect =
        write_lem m b byte laws installed (omega arith) (omega arith) f offset buf h (omega arith)
          ok in
      (
        ok,
        subst (λ d. Written byte d f offset buf (Storage.write m f offset buf).1) sectors effect.2,
      )

  -- `begin_write` accepts an image that fits behind the header's sector, and the update has stored
  -- nothing.
  pub begin_write-IsWriting :
      (c : FirmwareCache) (f : F) (image_size version : ℕ)
      → header_reserved ≤ c.slot_size
      → c.slot_size < 2 ^ 32
      → image_size ≤ c.slot_size - header_reserved
      → (begin_write c image_size version ≡ (true, begun c image_size version))
        × IsWriting byte (begun c image_size version) f []
  unfolding begin_write Crc32.update
  begin_write-IsWriting c f image_size version h k fits =
      let accepted : ltb ((c.slot_size + 2 ^ 32 - header_reserved) % 2 ^ 32) image_size ≡ false =
        ground arith in
      (rw accepted refl, record { writes = refl; offset_at = refl; crc_of = refl; stored = refl })

  pub write_chunk-run :
      (c : FirmwareCache) (f : F) (done chunk : List ℕ)
      → IsWriting byte c f done
      → 0 < length chunk
      → base c + header_reserved + length done + length chunk ≤ b.total_size
      → let f' = (Storage.write m f (base c + header_reserved + length done) chunk).1 in
        (write_chunk m c f chunk ≡ (as_int (length chunk), chunk_written c chunk, f'))
        × Written byte 4096 f (base c + header_reserved + length done) chunk f'
  unfolding write_chunk
  write_chunk-run c f done chunk v h k =
      let offset = base c + header_reserved + length done in
      let at : add_u32 (base c) c.write_offset ≡ offset = omega (arith, v.offset_at) in
      let (ok, effect) = write_works f offset chunk h k in (rw (at, v.writes, ok) refl, effect)

  -- On a flash of less than 2 GB with sectors of 4096 bytes, whose backend meets the flash
  -- laws and does not fail: a chunk behind whole sectors, with room in the flash, is
  -- accepted and appended to what is stored; the bytes before it, and those behind the
  -- sectors it touches, stay.
  pub write_chunk-IsWriting :
      (c : FirmwareCache) (f : F) (done chunk : List ℕ)
      → IsWriting byte c f done
      → base c % 4096 ≡ 0
      → length done % 4096 ≡ 0
      → 0 < length chunk
      → base c + header_reserved + length done + length chunk ≤ b.total_size
      → let (n, c', f') = write_chunk m c f chunk in
        (n ≡ pos (length chunk))
        × (c' ≡ chunk_written c chunk)
        × IsWriting byte c' f' (done ++ chunk)
        × ((a : ℕ) → a < base c + header_reserved + length done → byte f' a ≡ byte f a)
        × ((a : ℕ)
            → base c + header_reserved + length done + (length chunk + 4095) / 4096 * 4096 ≤ a
            → byte f' a ≡ byte f a)
  write_chunk-IsWriting c f done chunk v aligned whole_sectors h k =
      let start = base c + header_reserved in
      let offset = start + length done in
      let f' = (Storage.write m f offset chunk).1 in
      let (run, effect) = write_chunk-run c f done chunk v h k in
      let len = length-append done chunk in
      let before : (a : ℕ) → a < offset → byte f' a ≡ byte f a = λ a p. ground (arith, effect a) in
      let behind : (a : ℕ)
          → offset + (length chunk + 4095) / 4096 * 4096 ≤ a
          → byte f' a ≡ byte f a =
        λ a p. ground (arith, effect a) in
      let old : bytes_at byte f' start (length done) ≡ done =
        bytes_at-same byte f' f start (length done) (λ i hi. before (start + i) (omega arith))
        ∙ v.stored in
      let new : bytes_at byte f' offset (length chunk) ≡ chunk =
        bytes_at-eq byte f' offset chunk (λ i hi.
          let e : offset + i - offset ≡ i = omega arith in
          ground (arith, effect (offset + i), ap (λ j. get_or chunk j 0) e)) in
      rw run (
        as_int_small (length chunk) (omega arith),
        refl,
        record {
          writes = v.writes;
          offset_at = omega (arith, v.offset_at, len);
          crc_of =
              ap (λ t. Crc32.update t chunk) v.crc_of
              ∙ sym (update-append Crc32.initial done chunk);
          stored =
              ap (bytes_at byte f' start) len
              ∙ bytes_at-add byte f' start (length done) (length chunk)
              ∙ ap₂ ◌++◌ old new;
        },
        before,
        behind,
      )
