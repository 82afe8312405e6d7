-- ===== src/Mmu.antt =====
-- The parts of the RISC-V simulator that the devices call: `mmu_t` of riscv/mmu.h, reached as
-- `sim->debug_mmu`. `R` is the simulated memory. The devices give physical addresses, 64-bit words.
pub mod Sample
use spike_virtio_devices.Prelude.{
  ℕ, ◌+◌, ◌*◌, ◌/◌, ◌%◌, ◌^◌, ◌<◌, ◌≡◌, ◌==◌, if◌then◌else◌, u8, add64,
}

pub record Mmu (R : Type 0) : Type 0 where
  pub load8 : R → ℕ → ℕ
  pub load16 : R → ℕ → ℕ
  pub store8 : R → ℕ → ℕ → R
  pub store16 : R → ℕ → ℕ → R
  pub store32 : R → ℕ → ℕ → R

-- A byte-addressed little-endian memory. Accesses that raise a trap are outside the model.
pub record IsMmu {R : Type 0} (mmu : Mmu R) : Type 0 where
  pub load8-lt : (m : R) (a : ℕ) → mmu.load8 m a < 256
  pub load8-store8 :
      (m : R) (a v b : ℕ)
      → mmu.load8 (mmu.store8 m a v) b ≡ (if a == b then u8 v else mmu.load8 m b)
  pub load16_bytes :
      (m : R) (a : ℕ) → mmu.load16 m a ≡ mmu.load8 m a + mmu.load8 m (add64 a 1) * 2 ^ 8
  pub store16_bytes :
      (m : R) (a v : ℕ)
      → mmu.store16 m a v ≡ mmu.store8 (mmu.store8 m a (u8 v)) (add64 a 1) (u8 (v / 2 ^ 8))
  pub store32_bytes :
      (m : R) (a v : ℕ)
      → mmu.store32 m a v
        ≡ mmu.store16 (mmu.store16 m a (v % 2 ^ 16)) (add64 a 2) (v / 2 ^ 16 % 2 ^ 16)

-- The 64-bit accesses, which iceblk uses.
pub record Mmu64 (R : Type 0) : Type 0 where
  pub load64 : R → ℕ → ℕ
  pub store64 : R → ℕ → ℕ → R

-- At aligned addresses a word is stored whole, and other words stay.
pub record IsMmu64 {R : Type 0} (mmu : Mmu64 R) : Type 0 where
  pub load64-store64 :
      (m : R) (a v b : ℕ)
      → a % 8 ≡ 0
      → b % 8 ≡ 0
      → mmu.load64 (mmu.store64 m a v) b ≡ (if a == b then v % 2 ^ 64 else mmu.load64 m b)
