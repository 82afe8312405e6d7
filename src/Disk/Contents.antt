-- ===== src/Disk/Contents.antt =====
-- src/fs_disk.c: the contents of files and directories, and locks.
use spike_virtio_devices.Prelude.{
  ltb, ℕ, zero, suc, ◌+◌, ◌-◌, ◌/◌, ◌^◌, Bool, not, ◌||◌, Option, none, some, List, [], ◌∷◌, ◌++◌,
  ◌==◌, length, take, if◌then◌else◌, slt, sext64, u8, u16, u32,
}
use spike_virtio_devices.Prelude.Outcome.{within, Outcome, done, out_of_fuel, ◌>>=◌}
use spike_virtio_devices.Libc.{strlen}
use spike_virtio_devices.Virtio.Chain.Sets.{bytes16, bytes32, bytes64}
use spike_virtio_devices.NineP.Fs.{FsLock}
use spike_virtio_devices.Disk.{FsFile, Disk, file_at, with_host}
use spike_virtio_devices.Disk.Calls.{Host, ok, failed, Dirent, Flock}
use spike_virtio_devices.Disk.Codes.{minus_errno, p9_qtdir, p9_qtsymlink, p9_qtfile}
use spike_virtio_devices.Disk.Walk.{compose_path}

-- `-P9_EPROTO`
abbrev pub not_open : ℕ
not_open = 2 ^ 32 - 71

abbrev pub dt_unknown : ℕ
dt_unknown = 0

abbrev pub dt_dir : ℕ
dt_dir = 4

abbrev pub dt_reg : ℕ
dt_reg = 8

abbrev pub dt_lnk : ℕ
dt_lnk = 10

-- The type of a qid by that of an entry.
abbrev pub type_of : ℕ → ℕ
type_of d_type =
    if d_type == dt_dir then p9_qtdir else if d_type == dt_lnk then p9_qtsymlink else p9_qtfile

-- What an entry is in the buffer; `name` has no null.
abbrev pub entry_bytes : ℕ → ℕ → ℕ → List ℕ → List ℕ
entry_bytes d_type ino offset name =
    (u8 (type_of d_type) ∷ [])
    ++ (bytes32 0
        ++ (bytes64 ino
            ++ (bytes64 offset ++ ((u8 d_type ∷ []) ++ (bytes16 (u16 (length name)) ++ name)))))

module _ {H : Type 0} (os : Host H) where
  -- `d_type`, asked of the entry's file where the directory does not tell.
  unfoldable pub entry_type : H → List ℕ → Dirent → Outcome (ℕ × H)
  unfolding compose_path
  entry_type h dir de =
      if de.d_type == dt_unknown
      then (do
        path ← compose_path dir de.d_name
        let (r, h') = os.lstat h path
        done (elim r [ failed errno ↦ dt_reg | ok st ↦ st.st_mode / 2 ^ 12 ], h'))
      else done (de.d_type, h)

  -- The body of the loop of `fs_readdir`: what has been written, whose length is `pos`, and what
  -- goes on behind the entry. The sum `pos + len` of two `int`s that is too large is undefined.
  unfoldable pub one_entry :
      (H → List ℕ → Outcome (List ℕ × H))
      → H
      → FsFile
      → ℕ
      → List ℕ
      → Option Dirent
      → Outcome (List ℕ × H)
  unfolding entry_type
  one_entry next h file count out none = done (out, h)
  one_entry next h file count out (some de) = do
    name_len ← strlen de.d_name
    pos ← within (ltb (length out + (24 + name_len)) (2 ^ 31)) (length out + (24 + name_len))
    if slt count pos then done (out, h) else do
      let (offset, h2) = os.telldir h file.u
      (d_type, h3) ← entry_type h2 file.path de
      next h3 (out ++ entry_bytes d_type de.d_ino offset (take name_len de.d_name))

  -- The loop, on fuel.
  unfoldable pub read_entries : ℕ → H → FsFile → ℕ → List ℕ → Outcome (List ℕ × H)
  unfolding one_entry
  read_entries zero h file count out = out_of_fuel
  read_entries (suc fuel) h file count out =
      let (entry, h') = os.readdir h file.u in
      one_entry (λ g more. read_entries fuel g file count more) h' file count out entry

  unfoldable pub fs_readdir : Disk H → ℕ → ℕ → ℕ → Outcome (ℕ × List ℕ × Disk H)
  unfolding read_entries
  fs_readdir s f offset count = do
    file ← file_at s f
    if not file.is_opened || not file.is_dir then done (not_open, [], s) else do
      let h = if offset == 0 then os.rewinddir s.host file.u else os.seekdir s.host file.u offset
      (out, h') ← read_entries (suc count) h file count []
      done (length out, out, with_host s h')

  -- Not an open file.
  abbrev pub no_file : FsFile → Bool
  no_file file = not file.is_opened || file.is_dir

  unfoldable pub fs_read : Disk H → ℕ → ℕ → ℕ → Outcome (ℕ × List ℕ × Disk H)
  fs_read s f offset count = do
    file ← file_at s f
    let (r, h) = os.pread s.host file.u (sext64 count) offset
    if no_file file then done (not_open, [], s) else elim r [
      | failed errno ↦ done (minus_errno errno, [], with_host s h)
      | ok bytes ↦ done (u32 (length bytes), bytes, with_host s h)
    ]

  unfoldable pub fs_write : Disk H → ℕ → ℕ → List ℕ → ℕ → Outcome (ℕ × Disk H)
  fs_write s f offset buf count = do
    file ← file_at s f
    let (r, h) = os.pwrite s.host file.u buf (sext64 count) offset
    if no_file file then done (not_open, s) else elim r [
      | failed errno ↦ done (minus_errno errno, with_host s h)
      | ok written ↦ done (u32 written, with_host s h)
    ]

  abbrev pub flock_of : FsLock → Flock
  flock_of lock = record { l_type = lock.type; l_start = lock.start; l_len = lock.length }

  -- P9_LOCK_SUCCESS, P9_LOCK_BLOCKED for EAGAIN or EACCES, or an error.
  unfoldable pub fs_lock : Disk H → ℕ → FsLock → Outcome (ℕ × Disk H)
  fs_lock s f lock = do
    file ← file_at s f
    let (r, h) = os.fcntl_setlk s.host file.u (flock_of lock)
    if no_file file then done (not_open, s) else elim r [
      | ok _ ↦ done (0, with_host s h)
      | failed errno ↦
          done (if errno == 11 || errno == 13 then 1 else minus_errno errno, with_host s h)
    ]

  unfoldable pub fs_getlock : Disk H → ℕ → FsLock → Outcome (ℕ × FsLock × Disk H)
  fs_getlock s f lock = do
    file ← file_at s f
    let (r, h) = os.fcntl_getlk s.host file.u (flock_of lock)
    if no_file file then done (not_open, lock, s) else elim r [
      | failed errno ↦ done (minus_errno errno, lock, with_host s h)
      | ok fl ↦ done (
        0,
        record lock { type = u8 fl.l_type; start = fl.l_start; length = fl.l_len },
        with_host s h,
      )
    ]
