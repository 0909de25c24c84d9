-- ===== src/Firmware/Refused.antt =====
-- A cache whose slots lie behind the end of the flash.
use takt_os.Base.{
  ℕ, ◌+◌, ◌-◌, ◌%◌, ◌^◌, ◌≤◌, ◌<◌, ◌≡◌, refl, List, [], some, true, false, ltb, length, ◌==◌, arith,
  Bool-cases, inl, inr,
}
use takt_os.Base.Int.{minus_one}
use takt_os.Storage
use takt_os.Storage.{StorageManager, FlashBackend, add_size}
use takt_os.Firmware.{
  FirmwareCache, add_u32, slot_offset, inactive_slot, begin_write, write_chunk, verify, get_header,
  init,
}

-- The storage manager refuses an access that ends behind its flash.
write_refused :
    {F : Type 0} (m : StorageManager F) (b : FlashBackend F) (f : F) (offset : ℕ) (buf : List ℕ)
    → m.backend ≡ some b
    → b.total_size < offset + length buf
    → offset + length buf < 2 ^ 64
    → Storage.write m f offset buf ≡ (minus_one, f)
unfolding Storage.write
write_refused m b f offset buf installed out small =
    let t : ltb b.total_size (add_size offset (length buf)) ≡ true = ground arith in
    rw (installed, t) refl

read_refused :
    {F : Type 0} (m : StorageManager F) (b : FlashBackend F) (f : F) (offset len : ℕ)
    → m.backend ≡ some b
    → b.total_size < offset + len
    → offset + len < 2 ^ 64
    → Storage.read m f offset len ≡ (minus_one, [])
unfolding Storage.read
read_refused m b f offset len installed out small =
    let t : ltb b.total_size (add_size offset len) ≡ true = ground arith in rw (installed, t) refl

-- The slots begin behind the first `size` bytes.
pub record Behind (size : ℕ) (c : FirmwareCache) : Type 0 where
  pub a_behind : size ≤ c.slot_a_offset
  pub b_behind : size ≤ c.slot_b_offset
  pub a_small : c.slot_a_offset < 2 ^ 31
  pub b_small : c.slot_b_offset < 2 ^ 31

slot_offset-Behind :
    (size slot : ℕ) (c : FirmwareCache)
    → Behind size c
    → (size ≤ slot_offset c slot) × (slot_offset c slot < 2 ^ 31)
slot_offset-Behind size slot c h = elim (Bool-cases (slot == 0)) [
  | inl a ↦ rw a (h.a_behind, h.a_small)
  | inr b ↦ rw b (h.b_behind, h.b_small)
]

module _ {F : Type 0} (m : StorageManager F) (b : FlashBackend F)
    (installed : m.backend ≡ some b) where
  get_header-Behind :
      (c : FirmwareCache) (f : F) (slot : ℕ)
      → Behind b.total_size c
      → (get_header m c f slot).0 ≡ false
  unfolding get_header
  get_header-Behind c f slot h =
      let (behind, small) = slot_offset-Behind b.total_size slot c h in
      let refused =
        read_refused m b f (slot_offset c slot) 24 installed (omega arith) (omega arith) in
      elim (Bool-cases (ltb 1 slot)) [ inl t ↦ rw t refl | inr t ↦ rw (t, refused) refl ]

  pub verify-Behind :
      (c : FirmwareCache) (f : F) (slot : ℕ) → Behind b.total_size c → verify m c f slot ≡ false
  unfolding verify
  verify-Behind c f slot h = elim (Bool-cases (ltb 1 slot)) [
    | inl t ↦ rw t refl
    | inr t ↦ rw (t, get_header-Behind c f slot h) refl
  ]

  pub write_chunk-Behind :
      (c : FirmwareCache) (f : F) (image_size version : ℕ) (chunk : List ℕ)
      → Behind b.total_size c
      → c.slot_size < 2 ^ 32
      → image_size + 4096 ≤ c.slot_size
      → length chunk < 2 ^ 31
      → let (ok, c1) = begin_write c image_size version in
        (ok ≡ true) × (write_chunk m c1 f chunk ≡ (minus_one, c1, f))
  unfolding begin_write write_chunk
  write_chunk-Behind c f image_size version chunk h size fits short =
      let (behind, small) = slot_offset-Behind b.total_size (inactive_slot c) c h in
      let room : ltb ((c.slot_size + 2 ^ 32 - 4096) % 2 ^ 32) image_size ≡ false = ground arith in
      let at : add_u32 (slot_offset c (inactive_slot c)) 4096
          ≡ slot_offset c (inactive_slot c) + 4096 =
        omega arith in
      let refused =
        write_refused m b f (slot_offset c (inactive_slot c) + 4096) chunk installed (omega arith)
          (omega arith) in
      rw (room, at, refused) (refl, refl)

-- Where `init` puts the slots.
pub init_lem :
    {F : Type 0} (m : StorageManager F) (c : FirmwareCache) (f : F) (a b size : ℕ)
    → let c1 = (init m c f a b size).1 in
      (c1.slot_a_offset ≡ a) × (c1.slot_b_offset ≡ b) × (c1.slot_size ≡ size)
unfolding init
init_lem m c f a b size = (refl, refl, refl)
