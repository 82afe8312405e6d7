-- ===== src/Virtio/Chain/Sizes.antt =====
-- `get_desc_rw_size` against the list of descriptors that a chain is.
use spike_virtio_devices.Prelude.{
  ℕ, zero, suc, ◌+◌, ◌^◌, ◌<◌, ◌≡◌, refl, ◌∙◌, arith, Bool, true, false, not, ◌&&◌, Option, none,
  some, List, [], ◌∷◌, ◌==◌, length, if◌then◌else◌, Bool-cases, inl, inr, u32, add32,
}
use spike_virtio_devices.Prelude.Outcome.{done, out_of_fuel}
use spike_virtio_devices.Mmu.{Mmu}
use spike_virtio_devices.Virtio.Chain.{
  Desc, write_flag, has_next, get_desc, sum_write, sum_read, get_desc_rw_size,
}

-- The device may read the buffer of a descriptor, or write it.
abbrev pub is_read : Desc → Bool
is_read d = write_flag d == 0

abbrev pub read_total : List Desc → ℕ
read_total [] = 0
read_total (d ∷ ds) = (if is_read d then d.len else 0) + read_total ds

abbrev pub write_total : List Desc → ℕ
write_total [] = 0
write_total (d ∷ ds) = (if is_read d then 0 else d.len) + write_total ds

abbrev pub all_write : List Desc → Bool
all_write [] = true
all_write (d ∷ ds) = not (is_read d) && all_write ds

-- No readable descriptor behind a writable one.
abbrev pub ordered : List Desc → Bool
ordered [] = true
ordered (d ∷ ds) = if is_read d then ordered ds else all_write ds

-- The sizes of a chain, as 32-bit words; none if it is out of order.
abbrev pub chain_sizes : List Desc → Option (ℕ × ℕ)
chain_sizes ds = if ordered ds then some (u32 (read_total ds), u32 (write_total ds)) else none

read_total-all_write : (ds : List Desc) → all_write ds ≡ true → read_total ds ≡ 0
read_total-all_write [] h = refl
read_total-all_write (d ∷ ds) h = ground (arith, read_total-all_write ds)

module _ {R : Type 0} (mmu : Mmu R) (m : R) (table : ℕ) where
  -- `es` are the descriptors that follow `d` in guest memory.
  abbrev pub Follows : Desc → List Desc → Type 0
  Follows d [] = has_next d ≡ false
  Follows d (e ∷ es) = (has_next d ≡ true) × (get_desc mmu m table d.next ≡ e) × Follows e es

  sum_write_chain :
      (f : ℕ) (d : Desc) (es : List Desc) (r w : ℕ)
      → Follows d es
      → length es < f
      → w < 2 ^ 32
      → sum_write mmu f m table d r w
        ≡ done (if all_write (d ∷ es) then some (r, u32 (w + write_total (d ∷ es))) else none)
  unfolding sum_write
  sum_write_chain zero d es r w h enough small = absurd (omega arith)
  sum_write_chain (suc f) d [] r w h enough small = rw h (ground arith)
  sum_write_chain (suc f) d (e ∷ es) r w h enough small =
      rw (h.0, h.1) (ground (arith, sum_write_chain f e es r (add32 w d.len) h.2))

  sum_read_chain :
      (f : ℕ) (d : Desc) (es : List Desc) (r : ℕ)
      → Follows d es
      → length es < f
      → r < 2 ^ 32
      → sum_read mmu f m table d r
        ≡ done (
            if ordered (d ∷ es)
            then some (u32 (r + read_total (d ∷ es)), u32 (write_total (d ∷ es)))
            else none)
  unfolding sum_read
  sum_read_chain zero d es r h enough small = absurd (omega arith)
  sum_read_chain (suc f) d [] r h enough small =
      rw h (ground (arith, sum_write_chain (suc f) d [] r 0 h))
  sum_read_chain (suc f) d (e ∷ es) r h enough small = elim (Bool-cases (is_read d)) [
    | inl readable ↦
        rw (readable, h.0, h.1) (ground (arith, sum_read_chain f e es (add32 r d.len) h.2))
    | inr writable ↦
        rw (writable, sum_write_chain (suc f) d (e ∷ es) r 0 h enough (omega arith))
          (ground (arith, read_total-all_write (e ∷ es)))
  ]

  -- On a chain that ends, with fuel for its descriptors, `get_desc_rw_size` gives the total
  -- sizes of the readable and of the writable buffers as 32-bit words, or fails if a readable
  -- one follows a writable one.
  pub get_desc_rw_size-chain_sizes :
      (fuel desc_idx : ℕ) (es : List Desc)
      → Follows (get_desc mmu m table desc_idx) es
      → length es < fuel
      → get_desc_rw_size mmu fuel m table desc_idx
        ≡ done (chain_sizes (get_desc mmu m table desc_idx ∷ es))
  unfolding get_desc_rw_size
  get_desc_rw_size-chain_sizes fuel desc_idx es h enough =
      sum_read_chain fuel (get_desc mmu m table desc_idx) es 0 h enough (omega arith) ∙ ground arith

  sum_read_cycle :
      (P : Desc → Type 0)
      → ((d : Desc)
          → P d
          → (has_next d ≡ true) × (is_read d ≡ true) × P (get_desc mmu m table d.next))
      → (fuel : ℕ) (d : Desc) (r : ℕ) → P d
      → sum_read mmu fuel m table d r ≡ out_of_fuel
  unfolding sum_read
  sum_read_cycle P closed zero d r p = refl
  sum_read_cycle P closed (suc f) d r p =
      let c = closed d p in
      rw (c.0, c.1) (sum_read_cycle P closed f (get_desc mmu m table d.next) (add32 r d.len) c.2)

  -- On a chain of readable descriptors that never ends, such as a cycle, no fuel is enough: the
  -- loop of `get_desc_rw_size` does not terminate.
  pub get_desc_rw_size_cycle :
      (P : Desc → Type 0) (desc_idx : ℕ)
      → ((d : Desc)
          → P d
          → (has_next d ≡ true) × (is_read d ≡ true) × P (get_desc mmu m table d.next))
      → P (get_desc mmu m table desc_idx)
      → (fuel : ℕ) → get_desc_rw_size mmu fuel m table desc_idx ≡ out_of_fuel
  unfolding get_desc_rw_size
  get_desc_rw_size_cycle P desc_idx closed p fuel = sum_read_cycle P closed fuel _ 0 p
