-- ===== src/Firmware/Session.antt =====
-- A client's update: `beginWrite`, a `writeChunk` for each chunk, `finalizeWrite`.
use takt_os.Base.{
  ℕ, ◌+◌, ◌%◌, ◌^◌, ◌≤◌, ◌<◌, ◌≡◌, refl, ap, subst, sym, ◌∙◌, List, [], ◌∷◌, ◌++◌, some, Bool, true,
  false, if◌then◌else◌, length, length-append, arith, All,
}
use mathlib.Core.List.{append-nil, append_assoc}
use takt_os.Base.Int.{pos, is_negative}
use takt_os.Storage.{FlashBackend, StorageManager}
use takt_os.Storage.Backend.{FlashLaws, Reliable, bytes_at}
use takt_os.Firmware.{FirmwareCache, header_reserved, begin_write, write_chunk, finalize_write}
use takt_os.Firmware.Update.{
  base, IsWriting, begun, chunk_written, write_chunk-IsWriting, begin_write-IsWriting,
}
use takt_os.Firmware.Finalize.{finalize_write_lem}

module _ {F : Type 0} (m : StorageManager F) where
  -- Chunk after chunk, until one is refused.
  unfoldable pub feed : FirmwareCache → F → List (List ℕ) → Bool × FirmwareCache × F
  feed c f [] = (true, c, f)
  feed c f (chunk ∷ chunks) =
      let (n, c', f') = write_chunk m c f chunk in
      let rest = feed c' f' chunks in if is_negative n then (false, c', f') else rest

  pub update_image : FirmwareCache → F → ℕ → ℕ → List (List ℕ) → Bool × FirmwareCache × F
  update_image c f image_size version chunks =
      let (begun, c1) = begin_write c image_size version in
      let (fed, c2, f2) = feed c1 f chunks in
      if begun then if fed then finalize_write m c2 f2 else (false, c2, f2) else (false, c1, f)

-- The chunks, joined.
abbrev pub concat : List (List ℕ) → List ℕ
concat [] = []
concat (x ∷ rest) = x ++ concat rest

-- No chunk is empty, and all but the last fill whole sectors.
abbrev pub InSectors : List (List ℕ) → Type 0
InSectors [] = Unit
InSectors (x ∷ []) = 0 < length x
InSectors (x ∷ y ∷ rest) = (0 < length x) × (length x % 4096 ≡ 0) × InSectors (y ∷ rest)

-- Each chunk has some bytes, and `writeChunk` takes it.
abbrev pub Accepts : {F : Type 0} → StorageManager F → FirmwareCache → F → List (List ℕ) → Type 0
Accepts m c f [] = Unit
Accepts {F} m c f (x ∷ rest) =
    (0 < length x)
    × ((f' : F) × (write_chunk m c f x ≡ (pos (length x), chunk_written c x, f'))
        × Accepts m (chunk_written c x) f' rest)

module _ {F : Type 0} (m : StorageManager F) (b : FlashBackend F) (byte : F → ℕ → ℕ)
    (laws : FlashLaws b byte) (reliable : Reliable b) (installed : m.backend ≡ some b)
    (small : b.total_size < 2 ^ 31) (sectors : b.sector_size ≡ 4096)
    (whole : b.total_size % 4096 ≡ 0) where
  -- What is left after the chunks.
  pub record Fed (c : FirmwareCache) (f : F) (image : List ℕ) (r : Bool × FirmwareCache × F)
      : Type 0 where
    pub accepted : r.0 ≡ true
    pub writing : IsWriting byte r.1 r.2 image
    pub same_base : base r.1 ≡ base c
    pub same_slot : r.1.active_slot ≡ c.active_slot
    pub same_size : r.1.write_image_size ≡ c.write_image_size
    pub same_version : r.1.write_version ≡ c.write_version
    pub below : (a : ℕ) → a < base c + header_reserved → byte r.2 a ≡ byte f a

  feed-one :
      (c : FirmwareCache) (f : F) (done chunk : List ℕ)
      → IsWriting byte c f done
      → base c % 4096 ≡ 0
      → length done % 4096 ≡ 0
      → 0 < length chunk
      → base c + header_reserved + length done + length chunk ≤ b.total_size
      → (f' : F) × (write_chunk m c f chunk ≡ (pos (length chunk), chunk_written c chunk, f'))
        × IsWriting byte (chunk_written c chunk) f' (done ++ chunk)
        × ((a : ℕ) → a < base c + header_reserved → byte f' a ≡ byte f a)
  feed-one c f done chunk v aligned at_sector h k =
      let (n, same, v', before, behind) =
        write_chunk-IsWriting m b byte laws reliable installed small sectors whole c f done chunk v
          aligned at_sector h k in
      let f' = (write_chunk m c f chunk).2 in
      (
        f',
        λ i. (n i, same i, f'),
        subst (λ t. IsWriting byte t f' (done ++ chunk)) same v',
        λ a p. before a (omega arith),
      )

  -- A first chunk that is accepted, and what the other chunks leave.
  feed-cons :
      (c : FirmwareCache) (f f' : F) (done x : List ℕ) (rest : List (List ℕ))
      → write_chunk m c f x ≡ (pos (length x), chunk_written c x, f')
      → ((a : ℕ) → a < base c + header_reserved → byte f' a ≡ byte f a)
      → Fed (chunk_written c x) f' ((done ++ x) ++ concat rest) (feed m (chunk_written c x) f' rest)
      → Fed c f (done ++ concat (x ∷ rest)) (feed m c f (x ∷ rest))
  unfolding feed
  feed-cons c f f' done x rest run before fed = rw run (record {
    accepted = fed.accepted;
    writing =
        subst
          (IsWriting byte (feed m (chunk_written c x) f' rest).1
            (feed m (chunk_written c x) f' rest).2)
          (append_assoc done x (concat rest)) fed.writing;
    same_base = fed.same_base;
    same_slot = fed.same_slot;
    same_size = fed.same_size;
    same_version = fed.same_version;
    below = λ a p. fed.below a p ∙ before a p;
  })

  pub feed_lem :
      (c : FirmwareCache) (f : F) (done : List ℕ) (chunks : List (List ℕ))
      → IsWriting byte c f done
      → base c % 4096 ≡ 0
      → length done % 4096 ≡ 0
      → InSectors chunks
      → base c + header_reserved + length done + length (concat chunks) ≤ b.total_size
      → Fed c f (done ++ concat chunks) (feed m c f chunks)
  feed_lem c f done [] v aligned at_sector h k =
      unfold feed in
      record {
        accepted = refl;
        writing = subst (IsWriting byte c f) (sym (append-nil done)) v;
        same_base = refl;
        same_slot = refl;
        same_size = refl;
        same_version = refl;
        below = λ a p. refl;
      }
  feed_lem c f done (x ∷ []) v aligned at_sector h k =
      let len = length-append x [] in
      let (f', run, v', before) = feed-one c f done x v aligned at_sector h (omega (arith, len)) in
      feed-cons c f f' done x [] run before (
        unfold feed in
        record {
          accepted = refl;
          writing = subst (IsWriting byte (chunk_written c x) f') (sym (append-nil (done ++ x))) v';
          same_base = refl;
          same_slot = refl;
          same_size = refl;
          same_version = refl;
          below = λ a p. refl;
        })
  feed_lem c f done (x ∷ y ∷ rest) v aligned at_sector h k =
      let len = length-append x (concat (y ∷ rest)) in
      let len' = length-append done x in
      let (f', run, v', before) =
        feed-one c f done x v aligned at_sector h.0 (omega (arith, len)) in
      feed-cons c f f' done x (y ∷ rest) run before (
        feed_lem (chunk_written c x) f' (done ++ x) (y ∷ rest) v' aligned (omega (arith, len')) h.2
          (omega (arith, len, len')))

  pub feed-Accepts :
      (c : FirmwareCache) (f : F) (done : List ℕ) (chunks : List (List ℕ))
      → IsWriting byte c f done
      → base c % 4096 ≡ 0
      → length done % 4096 ≡ 0
      → InSectors chunks
      → base c + header_reserved + length done + length (concat chunks) ≤ b.total_size
      → Accepts m c f chunks
  feed-Accepts c f done [] v aligned at_sector h k = tt
  feed-Accepts c f done (x ∷ []) v aligned at_sector h k =
      let len = length-append x [] in
      let (f', run, _, _) = feed-one c f done x v aligned at_sector h (omega (arith, len)) in
      (h, (f', run, tt))
  feed-Accepts c f done (x ∷ y ∷ rest) v aligned at_sector h k =
      let len = length-append x (concat (y ∷ rest)) in
      let len' = length-append done x in
      let (f', run, v', _) = feed-one c f done x v aligned at_sector h.0 (omega (arith, len)) in
      (
        h.0,
        (
          f',
          run,
          feed-Accepts (chunk_written c x) f' (done ++ x) (y ∷ rest) v' aligned
              (omega (arith, len')) h.2 (omega (arith, len, len')),
        ),
      )

  -- On a flash of less than 2 GB with sectors of 4096 bytes, whose backend meets the flash
  -- laws and does not fail: an update whose chunks fill whole sectors, but for the last, and
  -- together have the announced size, succeeds when the slot starts at a sector and slot and
  -- flash have room. `finalizeWrite` returns true and closes the update, the image is stored
  -- behind the header's sector, and no byte below the slot has changed.
  pub update_image_lem :
      (c : FirmwareCache) (f : F) (version : ℕ) (chunks : List (List ℕ))
      → base c % 4096 ≡ 0
      → InSectors chunks
      → All (λ x. x < 256) (concat chunks)
      → version < 2 ^ 32
      → c.slot_size < 2 ^ 32
      → header_reserved + length (concat chunks) ≤ c.slot_size
      → base c + header_reserved + length (concat chunks) ≤ b.total_size
      → let (ok, c', f') = update_image m c f (length (concat chunks)) version chunks in
        (ok ≡ true)
        × (c'.writing ≡ false)
        × (bytes_at byte f' (base c + header_reserved) (length (concat chunks)) ≡ concat chunks)
        × ((a : ℕ) → a < base c → byte f' a ≡ byte f a)
  unfolding update_image
  update_image_lem c f version chunks aligned whole_chunks bytes v32 s32 fits room =
      let image = concat chunks in
      let c1 = begun c (length image) version in
      let (run, v) =
        begin_write-IsWriting m b byte laws reliable installed small sectors whole c f
          (length image) version (omega arith) s32 (omega arith) in
      let fed = feed_lem c1 f [] chunks v aligned (omega arith) whole_chunks (omega arith) in
      let c2 = (feed m c1 f chunks).1 in
      let f2 = (feed m c1 f chunks).2 in
      let (done, closes, _, stored, before, _) =
        finalize_write_lem m b byte laws reliable installed small sectors whole c2 f2 image
          fed.writing (omega (arith, fed.same_base)) (sym fed.same_size) bytes
          (omega (arith, fed.same_version)) (omega (arith, fed.same_base)) in
      rw (run, fed.accepted)
        (
          done,
          ap (λ (t : FirmwareCache). t.writing) closes,
          ap (λ t. bytes_at byte (finalize_write m c2 f2).2 (t + header_reserved) (length image))
                (sym fed.same_base)
              ∙ stored,
          λ a p. before a (omega (arith, fed.same_base)) ∙ fed.below a (omega arith),
        )
