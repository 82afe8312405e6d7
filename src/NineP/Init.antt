-- ===== src/NineP/Init.antt =====
-- What `virtio_9p_init` sets up, and what follows from there.
use spike_virtio_devices.Prelude.{
  ℕ, ◌+◌, ◌/◌, ◌^◌, ◌≤◌, ◌<◌, ◌≡◌, refl, sym, subst, ◌∙◌, arith, false, List, [], length, replicate,
  set, All, All-set, inl, u8,
}
use spike_virtio_devices.Prelude.Outcome.{done, Returns}
use spike_virtio_devices.Cutils.Endian.{IsByte, AreBytes, get_le16_value}
use spike_virtio_devices.Cutils.{byte_at, get_le16}
use spike_virtio_devices.Mmu.{Mmu}
use spike_virtio_devices.Virtio.Device.{Machine, virtio_init, virtio_reset, reset_queues}
use spike_virtio_devices.Virtio.Inv.{Holds, IsValid-virtio_init, AreBytes-replicate}
use spike_virtio_devices.Virtio.Chain.{blit}
use spike_virtio_devices.Virtio.Chain.Blit.{
  length-blit, get_or-blit-inside, get_or-blit-outside, blit-AreBytes,
}
use spike_virtio_devices.NineP.{NineP}
use spike_virtio_devices.NineP.Fs.{FsDevice}
use spike_virtio_devices.NineP.Fs.Laws.{IsFileSystem}
use spike_virtio_devices.NineP.Strings.{IsChar, c_string, strlen-c_string, memcpy-c_string}
use spike_virtio_devices.NineP.Data.{LockPlaces}
use spike_virtio_devices.NineP.Recv.{virtio_9p_init}
use spike_virtio_devices.NineP.Reach.{IsTable, NinePReach, NinePReach-Holds}

-- The config space with the mount tag.
abbrev tag_space : List ℕ → List ℕ
tag_space tag = set (set (replicate 256 0) 0 (u8 (length tag))) 1 (u8 (length tag / 2 ^ 8))

abbrev tag_config : List ℕ → List ℕ
tag_config tag = blit (tag_space tag) 2 tag

tag_space-AreBytes : (tag : List ℕ) → AreBytes (tag_space tag)
tag_space-AreBytes tag =
    All-set IsByte (set (replicate 256 0) 0 (u8 (length tag))) 1 (u8 (length tag / 2 ^ 8))
      (All-set IsByte (replicate 256 0) 0 (u8 (length tag)) (AreBytes-replicate 256) (omega arith))
      (omega arith)

length-tag_space : (tag : List ℕ) → length (tag_space tag) ≡ 256
length-tag_space tag = refl

tag_config_length :
    (tag : List ℕ) → AreBytes tag → length tag ≤ 254 → get_le16 (tag_config tag) 0 ≡ length tag
tag_config_length tag bytes fits =
    let low = get_or-blit-outside (tag_space tag) tag 2 (omega arith) 0 (inl (omega arith)) in
    let high = get_or-blit-outside (tag_space tag) tag 2 (omega arith) 1 (inl (omega arith)) in
    get_le16_value (tag_config tag) 0
      (blit-AreBytes (tag_space tag) tag 2 (tag_space-AreBytes tag) bytes)
    ∙ omega (arith, low, high)

module _ {R S : Type 0} (D : Type 0) (fs : S) (tag : List ℕ) (ram : R) where
  abbrev pub tagged : Machine R (NineP S D)
  tagged = record {
    dev = record (virtio_init 9 (2 + length tag)) {
      device_features = 1;
      config_space = tag_config tag;
    };
    ram = ram;
    own = record { fs = fs; msize = 8192; fid_list = []; req_in_progress = false };
  }

  module _ (Inv : S → List D → Type 0) (files : Inv fs []) (chars : All IsChar tag)
      (bytes : AreBytes tag) (some : 1 ≤ length tag) (fits : length tag ≤ 254) where
    tagged-Holds : Holds (IsTable Inv) tagged
    unfolding virtio_init virtio_reset reset_queues
    tagged-Holds =
        let v = IsValid-virtio_init 9 (2 + length tag) (omega arith) (omega arith) in
        (
          record {
            queues = v.queues;
            sel = v.sel;
            int_word = v.int_word;
            config = (
              length-blit (tag_space tag) tag 2 (omega arith),
              blit-AreBytes (tag_space tag) tag 2 (tag_space-AreBytes tag) bytes,
              v.config.2,
              v.config.3,
            );
            line = v.line;
          },
          (tt, omega arith, files),
        )

    pub virtio_9p_init_run : virtio_9p_init fs (c_string tag) ram ≡ done tagged
    unfolding virtio_9p_init virtio_init virtio_reset reset_queues
    virtio_9p_init_run =
        rw (strlen-c_string tag chars, memcpy-c_string (tag_space tag) 2 tag (omega arith))

    -- `virtio_9p_init` with a mount tag of 1 to 254 characters returns a device that is valid
    -- and has an empty fid table, a given invariant holds of its file system with no open files
    -- if it does of the file system passed, and the device's config space is two bytes longer
    -- than the tag and holds the tag's length as 16 bits and behind it the tag.
    pub virtio_9p_init_lem :
        (m : Machine R (NineP S D)) × (virtio_9p_init fs (c_string tag) ram ≡ done m)
        × Holds (IsTable Inv) m
        × (m.dev.config_space_size ≡ 2 + length tag)
        × (get_le16 m.dev.config_space 0 ≡ length tag)
        × ((i : ℕ) → i < length tag → byte_at m.dev.config_space (2 + i) ≡ byte_at tag i)
    unfolding virtio_init virtio_reset reset_queues
    virtio_9p_init_lem = (
      tagged,
      virtio_9p_init_run,
      tagged-Holds,
      refl,
      tag_config_length tag bytes fits,
      λ i h. get_or-blit-inside (tag_space tag) tag 2 (omega arith) i h,
    )

    -- From the initialisation with a mount tag of 1 to 254 characters on, given an invariant of
    -- the file system and the list of its open files that each of its calls keeps, when its
    -- strings are C strings and its files are in the list, and that holds with no open files at
    -- first: in every state that the 9P device reaches by bus writes of any address, length and
    -- value, by whatever the guest writes to its memory between them, by configuration changes,
    -- and by the ends of opens that the file system had put off, its transport is valid, no fid
    -- is in its table twice, its message size is at most MAX_9P_MSIZE, and the invariant holds
    -- of the file system and the files of the fid table.
    pub NinePReach-virtio_9p_init :
        (mmu : Mmu R) (fuel : ℕ) (malloc : ℕ → List ℕ) (fsd : FsDevice S D)
        (laws : IsFileSystem fsd Inv) (places : LockPlaces) (flags : ℕ)
        {m t : Machine R (NineP S D)}
        → virtio_9p_init fs (c_string tag) ram ≡ done m
        → NinePReach mmu fuel malloc fsd places flags m t
        → Holds (IsTable Inv) t
    NinePReach-virtio_9p_init mmu fuel malloc fsd laws places flags {m} e r =
        NinePReach-Holds mmu fuel malloc fsd places flags Inv laws r
          (subst (Returns (Holds (IsTable Inv))) (sym virtio_9p_init_run ∙ e) tagged-Holds)
