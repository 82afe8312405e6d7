-- ===== src/Disk/Device.antt =====
-- src/fs_disk.c: `fs_disk_init` and the functions it puts in the device. The device's state is that
-- of the disk or what a call that has no result came to, from where on no call has one.
use spike_virtio_devices.Prelude.{ℕ, Option, none, some, List, [], if◌then◌else◌}
use spike_virtio_devices.Prelude.Outcome.{Outcome, done, aborted, fault, out_of_fuel, ◌>>=◌}
use spike_virtio_devices.Libc.{text}
use spike_virtio_devices.Libc.Text.{terminated}
use spike_virtio_devices.NineP.Fs.{FsDevice, FsStatFs, FsStat}
use spike_virtio_devices.Disk.{Disk, fs_delete}
use spike_virtio_devices.Disk.Calls.{Host, Stat, ok, failed}
use spike_virtio_devices.Disk.Codes.{s_isdir}
use spike_virtio_devices.Disk.Walk.{no_qid, fs_statfs, fs_attach, fs_walk, fs_open, fs_create}
use spike_virtio_devices.Disk.Change.{
  fs_mkdir, fs_symlink, fs_mknod, fs_link, fs_renameat, fs_unlinkat, fs_readlink, fs_stat,
}
use spike_virtio_devices.Disk.Setattr.{fs_setattr}
use spike_virtio_devices.Disk.Contents.{fs_readdir, fs_read, fs_write, fs_lock, fs_getlock}

-- A result and the state after it; without a result, `a` is as good as any.
abbrev pub with_state : {A S : Type 0} → A → Outcome (A × S) → A × Outcome S
with_state a (done (b, s)) = (b, done s)
with_state a aborted = (a, aborted)
with_state a fault = (a, fault)
with_state a out_of_fuel = (a, out_of_fuel)

abbrev pub with_state2 : {A B S : Type 0} → A → B → Outcome (A × B × S) → A × B × Outcome S
with_state2 a b (done (c, d, s)) = (c, d, done s)
with_state2 a b aborted = (a, b, aborted)
with_state2 a b fault = (a, b, fault)
with_state2 a b out_of_fuel = (a, b, out_of_fuel)

abbrev pub with_state3 :
    {A B C S : Type 0} → A → B → C → Outcome (A × B × C × S) → A × B × C × Outcome S
with_state3 a b c (done (d, e, f, s)) = (d, e, f, done s)
with_state3 a b c aborted = (a, b, c, aborted)
with_state3 a b c fault = (a, b, c, fault)
with_state3 a b c out_of_fuel = (a, b, c, out_of_fuel)

abbrev no_statfs : FsStatFs
no_statfs = record {
  f_bsize = 0;
  f_blocks = 0;
  f_bfree = 0;
  f_bavail = 0;
  f_files = 0;
  f_ffree = 0;
}

module _ {H : Type 0} (os : Host H) where
  -- `fs_disk_init`; `unset` is what `st` holds where `lstat` fails.
  unfoldable pub fs_disk_init : Stat → List ℕ → H → Option (Disk H) × H
  fs_disk_init unset root_path h =
      let (r, h') = os.lstat h root_path in
      let st : Stat = elim r [ ok st ↦ st | failed errno ↦ unset ] in
      (
        if s_isdir st.st_mode
            then some (record { root_path = terminated (text root_path); files = []; host = h' })
            else none,
        h',
      )

  -- `unset` is what the buffer of `fs_stat` holds where the call fails.
  unfoldable pub fs_disk : FsStat → FsDevice (Outcome (Disk H)) ℕ
  fs_disk unset = record {
    fs_delete = λ s f. s >>= λ d. fs_delete os d f;
    fs_statfs = λ s. with_state no_statfs (s >>= λ d. fs_statfs os d);
    fs_attach =
        λ s uid uname aname. with_state3 0 0 no_qid (s >>= λ d. fs_attach os d uid uname aname);
    fs_walk = λ s f names. with_state3 0 0 [] (s >>= λ d. fs_walk os d f names);
    fs_mkdir = λ s f name mode gid. with_state2 0 no_qid (s >>= λ d. fs_mkdir os d f name mode gid);
    fs_open = λ s f flags oi. with_state2 0 no_qid (s >>= λ d. fs_open os d f flags);
    fs_create = λ s f name flags mode gid.
        with_state2 0 no_qid (s >>= λ d. fs_create os d f name flags mode gid);
    fs_stat = λ s f. with_state2 0 unset (s >>= λ d. fs_stat os unset d f);
    fs_setattr = λ s f mask mode uid gid size asec ansec msec mnsec.
        with_state 0 (s >>= λ d. fs_setattr os d f mask mode uid gid size asec ansec msec mnsec);
    fs_readdir = λ s f offset count. with_state2 0 [] (s >>= λ d. fs_readdir os d f offset count);
    fs_read = λ s f offset count. with_state2 0 [] (s >>= λ d. fs_read os d f offset count);
    fs_write = λ s f offset buf count. with_state 0 (s >>= λ d. fs_write os d f offset buf count);
    fs_link = λ s df f name. with_state 0 (s >>= λ d. fs_link os d df f name);
    fs_symlink =
        λ s f name symgt gid. with_state2 0 no_qid (s >>= λ d. fs_symlink os d f name symgt gid);
    fs_mknod = λ s f name mode major minor gid.
        with_state2 0 no_qid (s >>= λ d. fs_mknod os d f name mode major minor gid);
    fs_readlink = λ s size f. with_state2 0 [] (s >>= λ d. fs_readlink os d size f);
    fs_renameat =
        λ s f name new_f new_name. with_state 0 (s >>= λ d. fs_renameat os d f name new_f new_name);
    fs_unlinkat = λ s f name. with_state 0 (s >>= λ d. fs_unlinkat os d f name);
    fs_lock = λ s f l. with_state 0 (s >>= λ d. fs_lock os d f l);
    fs_getlock = λ s f l. with_state2 0 l (s >>= λ d. fs_getlock os d f l);
  }

-- `fs_disk_end` frees the root's path, which is all that is left of the device; the host stays.
unfoldable pub fs_disk_end : {H : Type 0} → Disk H → H
fs_disk_end s = s.host
