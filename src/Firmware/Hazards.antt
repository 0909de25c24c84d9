-- ===== src/Firmware/Hazards.antt =====
-- Chunks that `writeChunk` accepts and that damage what is stored.
use takt_os.Base.{ℕ, ◌+◌, ◌-◌, ◌*◌, ◌/◌, ◌%◌, ◌^◌, ◌≤◌, ◌<◌, ◌≡◌, List, some, length, get_or, arith}
use takt_os.Base.Int.{pos, as_int_small}
use takt_os.Storage.{FlashBackend, StorageManager}
use takt_os.Storage.Backend.{FlashLaws, Reliable}
use takt_os.Firmware.{FirmwareCache, header_reserved, write_chunk}
use takt_os.Firmware.Update.{base, IsWriting, write_chunk-run}

module _ {F : Type 0} (m : StorageManager F) (b : FlashBackend F) (byte : F → ℕ → ℕ)
    (laws : FlashLaws b byte) (reliable : Reliable b) (installed : m.backend ≡ some b)
    (small : b.total_size < 2 ^ 31) (sectors : b.sector_size ≡ 4096)
    (whole : b.total_size % 4096 ≡ 0) where
  -- On a flash of less than 2 GB with sectors of 4096 bytes, whose backend meets the flash
  -- laws and does not fail: where the bytes stored so far do not end at a sector's end, the
  -- next chunk is accepted, and the stored bytes of the sector that it begins in are erased
  -- to 0xFF.
  pub write_chunk_erases :
      (c : FirmwareCache) (f : F) (done chunk : List ℕ) (i : ℕ)
      → IsWriting byte c f done
      → base c % 4096 ≡ 0
      → 0 < length chunk
      → base c + header_reserved + length done + length chunk ≤ b.total_size
      → length done / 4096 * 4096 ≤ i
      → i < length done
      → let (n, c', f') = write_chunk m c f chunk in
        (n ≡ pos (length chunk)) × (byte f' (base c + header_reserved + i) ≡ 255)
  write_chunk_erases c f done chunk i v aligned h k lo hi =
      let (run, effect) =
        write_chunk-run m b byte laws reliable installed small sectors whole c f done chunk v h k in
      rw run (
        as_int_small (length chunk) (omega arith),
        ground (arith, effect (base c + header_reserved + i)),
      )

  -- On a flash of less than 2 GB with sectors of 4096 bytes, whose backend meets the flash
  -- laws and does not fail: a chunk is held to the size of the flash only. One that runs
  -- past the end of the slot is accepted, and its bytes overwrite those behind the slot.
  pub write_chunk_overruns :
      (c : FirmwareCache) (f : F) (done chunk : List ℕ) (a : ℕ)
      → IsWriting byte c f done
      → 0 < length chunk
      → base c + header_reserved + length done + length chunk ≤ b.total_size
      → header_reserved + length done ≤ c.slot_size
      → base c + c.slot_size ≤ a
      → a < base c + header_reserved + length done + length chunk
      → let (n, c', f') = write_chunk m c f chunk in
        (n ≡ pos (length chunk))
        × (byte f' a ≡ get_or chunk (a - (base c + header_reserved + length done)) 0)
  write_chunk_overruns c f done chunk a v h k room lo hi =
      let (run, effect) =
        write_chunk-run m b byte laws reliable installed small sectors whole c f done chunk v h k in
      rw run (as_int_small (length chunk) (omega arith), ground (arith, effect a))
