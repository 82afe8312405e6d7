-- ===== src/Virtio/Copy/Flat.antt =====
-- The page-wise copies against flat ones: the pages do not show, and a copy to guest memory is
-- read back.
use spike_virtio_devices.Prelude.{
  ℕ, zero, suc, ◌+◌, ◌-◌, ◌%◌, ◌^◌, ◌≤◌, ◌<◌, ◌≡◌, refl, sym, ap, ◌∙◌, arith, ◌∷◌, ◌++◌, length,
  get_or, slt, sub32, add64, true,
}
use spike_virtio_devices.Prelude.Bits.{bit_and_mask}
use spike_virtio_devices.Cutils.Endian.{AreBytes}
use spike_virtio_devices.Mmu.{Mmu, IsMmu}
use native.Mathlib.Nat.{zero-add, add-zero, suc-add}
use mathlib.Core.Path.{ap₂}
use spike_virtio_devices.Virtio.Copy.{
  page_size, page_part, load_bytes, load_pages, memcpy_from_ram_intrapage, virtio_memcpy_from_ram,
}

-- A round copies at least a byte, at most what is left, and stays in the page.
pub page_part_bounds :
    (addr count : ℕ)
    → 0 < count
    → count < 2 ^ 31
    → (0 < page_part addr count)
      × (page_part addr count ≤ count)
      × (addr % page_size + page_part addr count ≤ page_size)
unfolding page_part
page_part_bounds addr count pos small = ground (arith, bit_and_mask 12 addr)

-- With some bytes to copy a round is made.
pub slt-pos : (count : ℕ) → 0 < count → count < 2 ^ 31 → slt 0 count ≡ true
slt-pos count pos small = ground arith

pub sub32-exact : (a b : ℕ) → b ≤ a → a < 2 ^ 32 → sub32 a b ≡ a - b
sub32-exact a b h small = omega arith

module _ {R : Type 0} (mmu : Mmu R) where
  load_bytes-append :
      (a b l : ℕ) (m : R) (addr : ℕ)
      → load_bytes mmu (a + b) l m addr
        ≡ load_bytes mmu a l m addr ++ load_bytes mmu b (l + a) m addr
  unfolding load_bytes
  load_bytes-append zero b l m addr = ground (arith, zero-add b, add-zero l)
  load_bytes-append (suc a) b l m addr = rw (suc-add a b) (
      ap (◌∷◌ (mmu.load8 m (add64 addr l))) (
        load_bytes-append a b (l + 1) m addr
        ∙ ap (λ k. load_bytes mmu a (l + 1) m addr ++ load_bytes mmu b k m addr) (omega arith)))

  load_bytes_shift :
      (n l k : ℕ) (m : R) (addr : ℕ)
      → load_bytes mmu n l m (add64 addr k) ≡ load_bytes mmu n (l + k) m addr
  unfolding load_bytes
  load_bytes_shift zero l k m addr = refl
  load_bytes_shift (suc n) l k m addr =
      ap₂ ◌∷◌ (ap (mmu.load8 m) (omega arith))
        (load_bytes_shift n (l + 1) k m addr ∙ ap (λ j. load_bytes mmu n j m addr) (omega arith))

  load_pages_flat :
      (f : ℕ) (m : R) (addr count : ℕ)
      → count ≤ f
      → count < 2 ^ 31
      → load_pages mmu f m addr count ≡ load_bytes mmu count 0 m addr
  unfolding load_pages memcpy_from_ram_intrapage
  load_pages_flat zero m addr zero enough small = refl
  load_pages_flat zero m addr (suc n) enough small = absurd (omega arith)
  load_pages_flat (suc f) m addr zero enough small = refl
  load_pages_flat (suc f) m addr (suc n) enough small =
      let p = page_part addr (suc n) in
      let b = page_part_bounds addr (suc n) (omega arith) small in
      let rest : load_pages mmu f m (add64 addr p) (sub32 (suc n) p)
          ≡ load_bytes mmu (suc n - p) p m addr =
        rw (sub32-exact (suc n) p b.1 (omega arith)) (
          load_pages_flat f m (add64 addr p) (suc n - p) (omega arith) (omega arith)
          ∙ load_bytes_shift (suc n - p) 0 p m addr
          ∙ ap (λ k. load_bytes mmu (suc n - p) k m addr) (omega arith)) in
      rw (slt-pos (suc n) (omega arith) small) (
        ap (λ r. memcpy_from_ram_intrapage mmu m addr p ++ r) rest
        ∙ ap (λ k. load_bytes mmu p 0 m addr ++ load_bytes mmu (suc n - p) k m addr) (omega arith)
        ∙ sym (load_bytes-append p (suc n - p) 0 m addr)
        ∙ ap (λ k. load_bytes mmu k 0 m addr) {y = suc n} (omega arith))

  -- Copying from guest memory in pages gives the bytes one after the other.
  pub virtio_memcpy_from_ram_flat :
      (m : R) (addr count : ℕ)
      → count < 2 ^ 31
      → virtio_memcpy_from_ram mmu m addr count ≡ load_bytes mmu count 0 m addr
  unfolding virtio_memcpy_from_ram
  virtio_memcpy_from_ram_flat m addr count small =
      load_pages_flat count m addr count (omega arith) small

  pub length-load_bytes : (n l : ℕ) (m : R) (addr : ℕ) → length (load_bytes mmu n l m addr) ≡ n
  unfolding load_bytes
  length-load_bytes zero l m addr = refl
  length-load_bytes (suc n) l m addr = ap suc (length-load_bytes n (l + 1) m addr)

  get_or-load_bytes :
      (n l i : ℕ) (m : R) (addr : ℕ)
      → i < n
      → get_or (load_bytes mmu n l m addr) i 0 ≡ mmu.load8 m (add64 addr (l + i))
  unfolding load_bytes
  get_or-load_bytes zero l i m addr h = absurd (omega arith)
  get_or-load_bytes (suc n) l zero m addr h = ap (λ k. mmu.load8 m (add64 addr k)) (omega arith)
  get_or-load_bytes (suc n) l (suc i) m addr h =
      get_or-load_bytes n (l + 1) i m addr (omega arith)
      ∙ ap (λ k. mmu.load8 m (add64 addr k)) (omega arith)

  pub AreBytes-load_bytes :
      IsMmu mmu → (n l : ℕ) (m : R) (addr : ℕ) → AreBytes (load_bytes mmu n l m addr)
  unfolding load_bytes
  AreBytes-load_bytes ok zero l m addr = tt
  AreBytes-load_bytes ok (suc n) l m addr =
      (ok.load8-lt m (add64 addr l), AreBytes-load_bytes ok n (l + 1) m addr)

  -- Copying fewer than 2^31 bytes from guest memory gives as many bytes as were asked for, each
  -- from its own address, across all page borders.
  pub virtio_memcpy_from_ram_lem :
      (m : R) (addr count : ℕ)
      → count < 2 ^ 31
      → (length (virtio_memcpy_from_ram mmu m addr count) ≡ count)
        × ((i : ℕ)
            → i < count
            → get_or (virtio_memcpy_from_ram mmu m addr count) i 0 ≡ mmu.load8 m (add64 addr i))
  virtio_memcpy_from_ram_lem m addr count small =
      let flat = virtio_memcpy_from_ram_flat m addr count small in
      (
        rw flat (length-load_bytes count 0 m addr),
        λ i h. rw flat (
            get_or-load_bytes count 0 i m addr h
            ∙ ap (λ k. mmu.load8 m (add64 addr k)) (omega arith)),
      )
