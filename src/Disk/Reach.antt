-- ===== src/Disk/Reach.antt =====
-- The states of a 9P device that src/virtio-9p-disk.cc has set up.
use spike_virtio_devices.Prelude.{
  ℕ, ◌≤◌, ◌≡◌, refl, ap, arith, true, false, Bool, Option, none, some, List, [], if◌then◌else◌,
  length, All,
}
use spike_virtio_devices.Prelude.Outcome.{Outcome, done, aborted, fault, out_of_fuel, ◌>>=◌}
use spike_virtio_devices.Cutils.Endian.{AreBytes}
use spike_virtio_devices.Libc.{text}
use spike_virtio_devices.Libc.Text.{terminated, terminated-ends}
use spike_virtio_devices.Mmu.{Mmu}
use spike_virtio_devices.Virtio.Device.{Machine}
use spike_virtio_devices.Virtio.Inv.{Holds}
use spike_virtio_devices.NineP.{NineP}
use spike_virtio_devices.NineP.Fs.{FsStat}
use spike_virtio_devices.NineP.Data.{LockPlaces}
use spike_virtio_devices.NineP.Strings.{IsChar, c_string}
use spike_virtio_devices.NineP.Reach.{IsTable, NinePReach}
use spike_virtio_devices.NineP.Init.{NinePReach-virtio_9p_init}
use spike_virtio_devices.Disk.{Disk}
use spike_virtio_devices.Disk.Calls.{Host, IsHost, Stat}
use spike_virtio_devices.Disk.Codes.{s_isdir}
use spike_virtio_devices.Disk.Device.{fs_disk_init, fs_disk}
use spike_virtio_devices.Disk.Files.{Keeps, times}
use spike_virtio_devices.Disk.Serving.{IsIntact, fs_disk-IsFileSystem}
use spike_virtio_devices.Disk.Plugin.{
  String, path_key, find, read_args, mount_tag, serve_disk, virtio9p,
}

abbrev IsNew : {H : Type 0} → Option (Disk H) → Type 0
IsNew none = Unit
IsNew (some d) = Keeps [] d

-- A disk starts without open files.
fs_disk-IsNew :
    {H : Type 0} (root_path : List ℕ) (h : H) (is_dir : Bool)
    → IsNew (
        if is_dir
        then some (record { root_path = terminated (text root_path); files = []; host = h })
        else none)
unfolding times
fs_disk-IsNew root_path h true = record {
  root = terminated-ends (text root_path);
  paths = λ f. tt;
  held = λ f. refl;
}
fs_disk-IsNew root_path h false = tt

fs_disk_init-IsNew :
    {H : Type 0} (os : Host H) (unset : Stat) (root_path : List ℕ) (h : H)
    → IsNew (fs_disk_init os unset root_path h).0
unfolding fs_disk_init
fs_disk_init-IsNew os unset root_path h = fs_disk-IsNew root_path _ (s_isdir _)

-- The device of a constructor that has not exited.
abbrev built : {A : Type 0} → Outcome (Option A) → Outcome A
built (done (some a)) = done a
built (done none) = fault
built aborted = aborted
built fault = fault
built out_of_fuel = out_of_fuel

bound :
    {A : Type 0} (r : Outcome A) {a : A} → (r >>= λ m. done (some m)) ≡ done (some a) → r ≡ done a
bound (done x) e = ap built e
bound aborted e = ap built e
bound fault e = ap built e
bound out_of_fuel e = ap built e

module _ {R H : Type 0} (os : Host H) (host : IsHost os) (mmu : Mmu R) (fuel : ℕ)
    (malloc : ℕ → List ℕ) (places : LockPlaces) (flags : ℕ) (no_stat : FsStat) (ram : R) where
  abbrev Reaches : (m t : Machine R (NineP (Outcome (Disk H)) ℕ)) → Type 0
  Reaches m t = NinePReach mmu fuel malloc (fs_disk os no_stat) places flags m t

  serve_disk-IsIntact :
      (r : Option (Disk H)) (tag : String) {m t : Machine R (NineP (Outcome (Disk H)) ℕ)}
      → IsNew r
      → All IsChar tag
      → AreBytes tag
      → 1 ≤ length tag
      → length tag ≤ 254
      → serve_disk r tag ram ≡ done (some m)
      → Reaches m t
      → Holds (IsTable IsIntact) t
  unfolding serve_disk
  serve_disk-IsIntact none tag k chars bytes some_tag fits e r = absurd (ground (arith, e))
  serve_disk-IsIntact (some d) tag k chars bytes some_tag fits e r =
      NinePReach-virtio_9p_init ℕ (done d) tag ram IsIntact k chars bytes some_tag fits mmu fuel
        malloc (fs_disk os no_stat) (fs_disk-IsFileSystem os host no_stat) places flags (bound _ e)
        r

  served :
      (sargs : List String) (h : H) (unset : Stat) (path : Option String)
      {m t : Machine R (NineP (Outcome (Disk H)) ℕ)}
      → All IsChar (mount_tag sargs)
      → AreBytes (mount_tag sargs)
      → 1 ≤ length (mount_tag sargs)
      → length (mount_tag sargs) ≤ 254
      → elim path [
        | none ↦ done none
        | some fname ↦ serve_disk (fs_disk_init os unset (c_string fname) h).0 (mount_tag sargs) ram
      ]
        ≡ done (some m)
      → Reaches m t
      → Holds (IsTable IsIntact) t
  served sargs h unset none chars bytes some_tag fits e r = absurd (ground (arith, e))
  served sargs h unset (some fname) chars bytes some_tag fits e r =
      serve_disk-IsIntact (fs_disk_init os unset (c_string fname) h).0 (mount_tag sargs)
        (fs_disk_init-IsNew os unset (c_string fname) h) chars bytes some_tag fits e r

  -- On a host whose failing `lstat` sets `errno` and whose directories have at most 2^22
  -- entries with names, and with a mount tag of 1 to 254 characters: if `virtio9p_t` does not
  -- exit, then in every state that its 9P device reaches by bus writes of any address, length
  -- and value, by whatever the guest writes to its memory between them, by configuration
  -- changes, and by the ends of opens that were put off, the file system on the disk has never
  -- used or deleted a file that was freed nor read past a string, each of its calls has
  -- returned, the files it has not freed are exactly those of the fid table, each once, the
  -- transport is valid, no fid is in the table twice, and the message size is at most
  -- MAX_9P_MSIZE.
  pub virtio9p-IsIntact :
      (sargs : List String) (h : H) (unset : Stat) {m t : Machine R (NineP (Outcome (Disk H)) ℕ)}
      → All IsChar (mount_tag sargs)
      → AreBytes (mount_tag sargs)
      → 1 ≤ length (mount_tag sargs)
      → length (mount_tag sargs) ≤ 254
      → virtio9p os unset sargs h ram ≡ done (some m)
      → Reaches m t
      → Holds (IsTable IsIntact) t
  unfolding virtio9p
  virtio9p-IsIntact sargs h unset chars bytes some_tag fits e r =
      served sargs h unset (find (read_args sargs) path_key) chars bytes some_tag fits e r
