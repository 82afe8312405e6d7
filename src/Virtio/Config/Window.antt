-- ===== src/Virtio/Config/Window.antt =====
-- The config space: accesses stay in its 256 bytes, a read gives the bytes in little-endian order,
-- and a write is read back.
use spike_virtio_devices.Prelude.{
  ℕ, zero, suc, List, Bool, true, false, ◌+◌, ◌*◌, ◌^◌, ◌≤◌, ◌<◌, ◌≡◌, refl, ◌∙◌, arith, Option,
  none, some, ltb, leb, if◌then◌else◌, sub32, length, get_or-set_self, length-set, All-set, u8, u16,
}
use spike_virtio_devices.Prelude.Outcome.{done, within, Returns}
use spike_virtio_devices.Cutils.{byte_at}
use spike_virtio_devices.Cutils.Endian.{
  AreBytes, IsByte, get_le16_value, get_le32_value, put_le32-AreBytes, length-put_le32,
  get_le32-put_le32, get_le16-put_le16, put_le16-AreBytes, length-put_le16,
}
use spike_virtio_devices.Virtio.Device.{VirtioDevice, Machine, max_config_space_size}
use spike_virtio_devices.Virtio.Config.{
  virtio_config_read, virtio_config_write, call_config_write, with_config_space,
}
use spike_virtio_devices.Virtio.Inv.{Holds, IsConfig, IsValid}

-- The value of `n` bytes from `offset`, the first the least.
abbrev pub le_value : List ℕ → ℕ → ℕ → ℕ
le_value xs offset zero = 0
le_value xs offset (suc n) = byte_at xs offset + 256 * le_value xs (offset + 1) n

abbrev pub access_size : ℕ → ℕ
access_size zero = 1
access_size (suc zero) = 2
access_size (suc (suc n)) = 4

-- With a config space of 3 to 256 bytes, a read of 1, 2 or 4 bytes from it gives the
-- little-endian value of the bytes, or 0 where the access does not fit, and never leaves the
-- array.
pub virtio_config_read_lem :
    (s : VirtioDevice) (offset size_log2 : ℕ)
    → IsConfig s
    → size_log2 ≤ 2
    → virtio_config_read s offset size_log2
      ≡ done (
          if leb (offset + access_size size_log2) s.config_space_size
          then le_value s.config_space offset (access_size size_log2)
          else 0)
unfolding virtio_config_read
virtio_config_read_lem s offset zero c h = ground arith
virtio_config_read_lem s offset (suc zero) c h =
    ground (arith, get_le16_value s.config_space offset c.1)
virtio_config_read_lem s offset (suc (suc zero)) c h =
    ground (arith, get_le32_value s.config_space offset c.1)
virtio_config_read_lem s offset (suc (suc (suc n))) c h = absurd (omega arith)

-- A bounds test that makes sure of the array's end.
Returns-guarded {ℓ} :
    {A : Type ℓ} (P : A → Type 0) (test ok : Bool) (x y : A)
    → (test ≡ true → ok ≡ true)
    → P x
    → P y
    → Returns P (if test then within ok x else done y)
Returns-guarded P false ok x y h hx hy = hy
Returns-guarded P true true x y h hx hy = hx
Returns-guarded P true false x y h hx hy = absurd (ground (arith, h refl))

Returns-passed {ℓ} :
    {A : Type ℓ} (P : A → Type 0) (test ok : Bool) (x y : A)
    → test ≡ true
    → ok ≡ true
    → P x
    → Returns P (if test then within ok x else done y)
Returns-passed P test ok x y p q hx = rw (p, q) hx

-- A callback that keeps the device valid, and `Own` of what its class adds.
abbrev pub CallbackKeeps :
    {R X : Type 0} → (X → Type 0) → Option (Machine R X → Machine R X) → Type 0
CallbackKeeps Own none = Unit
CallbackKeeps Own (some f) = (m : Machine _ _) → Holds Own m → Holds Own (f m)

module _ {R X : Type 0} (Own : X → Type 0) where
  with_config_space-IsValid :
      (m : Machine R X) (c : List ℕ)
      → Holds Own m
      → AreBytes c
      → length c ≡ length m.dev.config_space
      → Holds Own (with_config_space m c)
  with_config_space-IsValid m c (v, own) bytes len = (
    record {
      queues = v.queues;
      sel = v.sel;
      int_word = v.int_word;
      config = (len ∙ v.config.0, bytes, v.config.2, v.config.3);
      line = v.line;
    },
    own,
  )

  call_config_write-IsValid :
      (cb : Option (Machine R X → Machine R X)) (m : Machine R X)
      → CallbackKeeps Own cb
      → Holds Own m
      → Holds Own (call_config_write cb m)
  unfolding call_config_write
  call_config_write-IsValid none m keeps v = v
  call_config_write-IsValid (some f) m keeps v = keeps m v

  -- A write to the config space of a valid device, at every offset and size, returns without
  -- leaving the array and leaves the device valid and what its class keeps of its own, if the
  -- config callback does.
  pub virtio_config_write-IsValid :
      (cb : Option (Machine R X → Machine R X)) (m : Machine R X) (offset val size_log2 : ℕ)
      → CallbackKeeps Own cb
      → Holds Own m
      → Returns (Holds Own) (virtio_config_write cb m offset val size_log2)
  unfolding virtio_config_write
  virtio_config_write-IsValid cb m offset val zero keeps v =
      Returns-guarded (Holds Own) _ _ _ m (λ h. ground arith)
        (call_config_write-IsValid cb _ keeps (
          with_config_space-IsValid m _ v
            (All-set IsByte m.dev.config_space offset _ v.0.config.1 (omega arith))
            (length-set m.dev.config_space offset (u8 val))))
        v
  virtio_config_write-IsValid cb m offset val (suc zero) keeps v =
      Returns-guarded (Holds Own) _ _ _ m (λ h. ground arith)
        (call_config_write-IsValid cb _ keeps (
          with_config_space-IsValid m _ v
            (put_le16-AreBytes m.dev.config_space offset _ v.0.config.1)
            (length-put_le16 m.dev.config_space offset (u16 val))))
        v
  virtio_config_write-IsValid cb m offset val (suc (suc zero)) keeps v =
      Returns-guarded (Holds Own) _ _ _ m (λ h. ground arith)
        (call_config_write-IsValid cb _ keeps (
          with_config_space-IsValid m _ v
            (put_le32-AreBytes m.dev.config_space offset _ v.0.config.1)
            (length-put_le32 m.dev.config_space offset val)))
        v
  virtio_config_write-IsValid cb m offset val (suc (suc (suc n))) keeps v = v

module _ {R X : Type 0} where
  -- On a valid device with no config callback, what the driver writes to the config space at an
  -- offset where it fits it reads back, as 1, 2 or 4 bytes.
  pub config_read_back :
      (m : Machine R X) (offset val size_log2 : ℕ)
      → IsValid m.dev
      → size_log2 ≤ 2
      → offset + access_size size_log2 ≤ m.dev.config_space_size
      → val < 256 ^ access_size size_log2
      → Returns
          (λ t. virtio_config_read t.dev offset size_log2 ≡ done val)
          (virtio_config_write none m offset val size_log2)
  unfolding virtio_config_write virtio_config_read call_config_write
  config_read_back m offset val zero v h fits small =
      Returns-passed _ (ltb offset m.dev.config_space_size) (leb (offset + 1) max_config_space_size)
        _ m (ground arith) (ground arith)
        (ground (arith, get_or-set_self m.dev.config_space offset (u8 val) 0))
  config_read_back m offset val (suc zero) v h fits small =
      Returns-passed _ (ltb offset (sub32 m.dev.config_space_size 1))
        (leb (offset + 2) max_config_space_size) _ m (ground arith) (ground arith)
        (ground (arith, get_le16-put_le16 m.dev.config_space offset (u16 val) v.config.1))
  config_read_back m offset val (suc (suc zero)) v h fits small =
      Returns-passed _ (ltb offset (sub32 m.dev.config_space_size 3))
        (leb (offset + 4) max_config_space_size) _ m (ground arith) (ground arith)
        (ground (arith, get_le32-put_le32 m.dev.config_space offset val v.config.1))
  config_read_back m offset val (suc (suc (suc n))) v h fits small = absurd (omega arith)
