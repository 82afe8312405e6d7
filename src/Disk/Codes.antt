-- ===== src/Disk/Codes.antt =====
-- src/fs_disk.c: error codes, open flags and qids. The host is Linux, whose constants stand under
-- the names they have there.
use spike_virtio_devices.Prelude.{
  ℕ, Bool, List, [], ◌∷◌, ◌==◌, bit_and, bit_or, if◌then◌else◌, sub32,
}
use spike_virtio_devices.NineP.Fs.{FsQid}
use spike_virtio_devices.Disk.Calls.{Stat}

-- `errno_table`: P9_EPERM and EPERM, ENOENT, EIO, EEXIST, EINVAL, ENOSPC, ENOTEMPTY, EPROTO and
-- ENOTSUP.
abbrev pub errno_table : List (ℕ × ℕ)
errno_table =
    (1, 1) ∷ (2, 2) ∷ (5, 5) ∷ (17, 17) ∷ (22, 22) ∷ (28, 28) ∷ (39, 39) ∷ (71, 71) ∷ (524, 95) ∷ []

abbrev pub p9_einval : ℕ
p9_einval = 22

-- The loop of `errno_to_p9`.
unfoldable pub find_errno : List (ℕ × ℕ) → ℕ → ℕ
find_errno [] err = p9_einval
find_errno ((p9, host) ∷ rest) err =
    let later = find_errno rest err in if err == host then p9 else later

unfoldable pub errno_to_p9 : ℕ → ℕ
unfolding find_errno
errno_to_p9 err = if err == 0 then 0 else find_errno errno_table err

-- `-errno_to_p9(errno)`
abbrev pub minus_errno : ℕ → ℕ
minus_errno err = sub32 0 (errno_to_p9 err)

-- `open_flags`: P9_O_CREAT and O_CREAT, EXCL, TRUNC, APPEND, NONBLOCK, DSYNC, NOFOLLOW and SYNC.
abbrev pub open_flags : List (ℕ × ℕ)
open_flags =
    (0x40, 0x40)
    ∷ (0x80, 0x80)
    ∷ (0x200, 0x200)
    ∷ (0x400, 0x400)
    ∷ (0x800, 0x800)
    ∷ (0x1000, 0x1000)
    ∷ (0x20000, 0x20000)
    ∷ (0x100000, 0x101000)
    ∷ []

abbrev pub o_creat : ℕ
o_creat = 0x40

abbrev pub p9_o_noaccess : ℕ
p9_o_noaccess = 3

-- The loop of `p9_flags_to_host`.
unfoldable pub add_flags : List (ℕ × ℕ) → ℕ → ℕ → ℕ
add_flags [] flags ret = ret
add_flags ((p9, host) ∷ rest) flags ret =
    add_flags rest flags (if bit_and flags p9 == 0 then ret else bit_or ret host)

unfoldable pub p9_flags_to_host : ℕ → ℕ
unfolding add_flags
p9_flags_to_host flags = add_flags open_flags flags (bit_and flags p9_o_noaccess)

-- `S_ISDIR` and `S_ISLNK`
abbrev pub s_isdir : ℕ → Bool
s_isdir mode = bit_and mode 0xF000 == 0x4000

abbrev pub s_islnk : ℕ → Bool
s_islnk mode = bit_and mode 0xF000 == 0xA000

abbrev pub p9_qtdir : ℕ
p9_qtdir = 0x80

abbrev pub p9_qtsymlink : ℕ
p9_qtsymlink = 2

abbrev pub p9_qtfile : ℕ
p9_qtfile = 0

unfoldable pub stat_to_qid : Stat → FsQid
stat_to_qid st = record {
  type =
      if s_isdir st.st_mode
      then p9_qtdir
      else if s_islnk st.st_mode
      then p9_qtsymlink
      else p9_qtfile;
  version = 0;
  path = st.st_ino;
}
