-- ===== src/Mmu/Sample.antt =====
-- A memory that satisfies the laws: a function from addresses to bytes, or to aligned words.
use spike_virtio_devices.Prelude.{
  ℕ, ◌+◌, ◌*◌, ◌/◌, ◌%◌, ◌^◌, refl, arith, ◌==◌, if◌then◌else◌, u8, add64,
}
use spike_virtio_devices.Mmu.{Mmu, IsMmu, Mmu64, IsMmu64}

abbrev pub Bytes : Type 0
Bytes = ℕ → ℕ

abbrev byte : Bytes → ℕ → ℕ
byte m a = m a % 256

abbrev write_byte : Bytes → ℕ → ℕ → Bytes
write_byte m a v b = if a == b then u8 v else m b

abbrev write_half : Bytes → ℕ → ℕ → Bytes
write_half m a v = write_byte (write_byte m a (u8 v)) (add64 a 1) (u8 (v / 2 ^ 8))

abbrev pub sample : Mmu Bytes
sample = record {
  load8 = byte;
  load16 = λ m a. byte m a + byte m (add64 a 1) * 2 ^ 8;
  store8 = write_byte;
  store16 = write_half;
  store32 = λ m a v. write_half (write_half m a (v % 2 ^ 16)) (add64 a 2) (v / 2 ^ 16 % 2 ^ 16);
}

pub sample-IsMmu : IsMmu sample
sample-IsMmu = record {
  load8-lt = λ m a. omega arith;
  load8-store8 = λ m a v b. ground arith;
  load16_bytes = λ m a. refl;
  store16_bytes = λ m a v. refl;
  store32_bytes = λ m a v. refl;
}

abbrev pub sample64 : Mmu64 Bytes
sample64 = record { load64 = λ m a. m a; store64 = λ m a v b. if a == b then v % 2 ^ 64 else m b }

pub sample64-IsMmu64 : IsMmu64 sample64
sample64-IsMmu64 = record { load64-store64 = λ m a v b ha hb. refl }
