-- ===== src/Virtio/Copy.antt =====
-- src/virtio.cc: 16- and 32-bit accesses to guest memory, and the copies to and from it, page by
-- page. `OPT_MEMCPY_RAM` is not defined, so a copy goes byte by byte. A count is an `int` pattern.
pub mod Flat
pub mod Back
use spike_virtio_devices.Prelude.{
  ℕ, zero, suc, ◌+◌, ◌-◌, List, [], ◌∷◌, ◌++◌, if◌then◌else◌, slt, sub32, add64, bit_and, drop, u16,
  u32,
}
use spike_virtio_devices.Cutils.{min_int}
use spike_virtio_devices.Mmu.{Mmu}

abbrev pub page_size : ℕ
page_size = 4096

-- The rest of the page, at most: `min_int(count, VIRTIO_PAGE_SIZE - (addr & (VIRTIO_PAGE_SIZE - 1)))`.
unfoldable pub page_part : ℕ → ℕ → ℕ
unfolding min_int
page_part addr count = min_int count (page_size - bit_and addr (page_size - 1))

module _ {R : Type 0} (mmu : Mmu R) where
  abbrev pub virtio_read16 : R → ℕ → ℕ
  virtio_read16 m addr = mmu.load16 m addr

  abbrev pub virtio_write16 : R → ℕ → ℕ → R
  virtio_write16 m addr val = mmu.store16 m addr (u16 val)

  abbrev pub virtio_write32 : R → ℕ → ℕ → R
  virtio_write32 m addr val = mmu.store32 m addr (u32 val)

  -- The loop of `memcpy_from_ram_intrapage`, with the rounds left and the index `l`.
  unfoldable pub load_bytes : ℕ → ℕ → R → ℕ → List ℕ
  load_bytes zero l m addr = []
  load_bytes (suc n) l m addr = mmu.load8 m (add64 addr l) ∷ load_bytes n (l + 1) m addr

  unfoldable pub memcpy_from_ram_intrapage : R → ℕ → ℕ → List ℕ
  unfolding load_bytes
  memcpy_from_ram_intrapage m addr count = load_bytes count 0 m addr

  -- The loop of `memcpy_to_ram_intrapage`; the list is `buf[l..]`.
  unfoldable pub store_bytes : ℕ → ℕ → List ℕ → R → ℕ → R
  store_bytes zero l buf m addr = m
  store_bytes (suc n) l [] m addr = m
  store_bytes (suc n) l (b ∷ buf) m addr =
      store_bytes n (l + 1) buf (mmu.store8 m (add64 addr l) b) addr

  unfoldable pub memcpy_to_ram_intrapage : R → ℕ → List ℕ → ℕ → R
  unfolding store_bytes
  memcpy_to_ram_intrapage m addr buf count = store_bytes count 0 buf m addr

  -- The loop of `virtio_memcpy_from_ram`. Each round copies a byte at least.
  unfoldable pub load_pages : ℕ → R → ℕ → ℕ → List ℕ
  unfolding memcpy_from_ram_intrapage page_part
  load_pages zero m addr count = []
  load_pages (suc f) m addr count =
      let l = page_part addr count in
      let rest =
        memcpy_from_ram_intrapage m addr l ++ load_pages f m (add64 addr l) (sub32 count l) in
      if slt 0 count then rest else []

  unfoldable pub virtio_memcpy_from_ram : R → ℕ → ℕ → List ℕ
  unfolding load_pages
  virtio_memcpy_from_ram m addr count = load_pages count m addr count

  -- The loop of `virtio_memcpy_to_ram`.
  unfoldable pub store_pages : ℕ → R → ℕ → List ℕ → ℕ → R
  unfolding memcpy_to_ram_intrapage page_part
  store_pages zero m addr buf count = m
  store_pages (suc f) m addr buf count =
      let l = page_part addr count in
      let rest =
        store_pages f (memcpy_to_ram_intrapage m addr buf l) (add64 addr l) (drop l buf)
          (sub32 count l) in
      if slt 0 count then rest else m

  unfoldable pub virtio_memcpy_to_ram : R → ℕ → List ℕ → ℕ → R
  unfolding store_pages
  virtio_memcpy_to_ram m addr buf count = store_pages count m addr buf count
