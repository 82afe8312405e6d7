-- ===== src/Disk/Kept/Read.antt =====
-- The same for the contents of files and directories, and locks (src/fs_disk.c).
use spike_virtio_devices.Prelude.{ℕ, List, sext64}
use spike_virtio_devices.Prelude.Outcome.{Returns-weaken, Returns, Returns-if}
use spike_virtio_devices.NineP.Fs.{FsLock}
use spike_virtio_devices.NineP.Fs.Laws.{Has}
use spike_virtio_devices.Disk.{Disk}
use spike_virtio_devices.Disk.Calls.{Host, IsHost}
use spike_virtio_devices.Disk.Contents.{
  fs_readdir, no_file, fs_read, fs_write, fs_lock, fs_getlock, flock_of,
}
use spike_virtio_devices.Disk.Listing.{Answers, Answers-Keeps, fs_readdir_lem}
use spike_virtio_devices.Disk.Files.{file_of, Keeps, Kept1, Kept2}
use spike_virtio_devices.Disk.Kept.{Returns-Sys, with_file}

module _ {H : Type 0} (os : Host H) (host : IsHost os) where
  module _ (s : Disk H) (fds : List ℕ) (k : Keeps fds s) where
    pub fs_readdir-Keeps :
        (f offset count : ℕ) → Has f fds → Returns (Kept2 fds) (fs_readdir os s f offset count)
    fs_readdir-Keeps f offset count h =
        let file = file_of s fds f k h in
        Returns-weaken (Answers s fds count file.0.is_opened file.0.is_dir) (Kept2 fds)
          (fs_readdir os s f offset count)
          (Answers-Keeps s fds count file.0.is_opened file.0.is_dir k)
          (fs_readdir_lem os host count s fds k f offset file.0 file.1)

    pub fs_read-Keeps :
        (f offset count : ℕ) → Has f fds → Returns (Kept2 fds) (fs_read os s f offset count)
    unfolding fs_read
    fs_read-Keeps f offset count h = with_file os s fds k (Kept2 fds) f _ h (λ file p.
        Returns-if (Kept2 fds) (no_file os file) _ _ k (
          Returns-Sys (Kept2 fds) (os.pread s.host file.u (sext64 count) offset).0 _ _ (λ _. k)
            (λ _. k)))

    pub fs_write-Keeps :
        (f offset : ℕ) (buf : List ℕ) (count : ℕ)
        → Has f fds
        → Returns (Kept1 fds) (fs_write os s f offset buf count)
    unfolding fs_write
    fs_write-Keeps f offset buf count h = with_file os s fds k (Kept1 fds) f _ h (λ file p.
        Returns-if (Kept1 fds) (no_file os file) _ _ k (
          Returns-Sys (Kept1 fds) (os.pwrite s.host file.u buf (sext64 count) offset).0 _ _ (λ _. k)
            (λ _. k)))

    pub fs_lock-Keeps :
        (f : ℕ) (lock : FsLock) → Has f fds → Returns (Kept1 fds) (fs_lock os s f lock)
    unfolding fs_lock
    fs_lock-Keeps f lock h = with_file os s fds k (Kept1 fds) f _ h (λ file p.
        Returns-if (Kept1 fds) (no_file os file) _ _ k (
          Returns-Sys (Kept1 fds) (os.fcntl_setlk s.host file.u (flock_of os lock)).0 _ _ (λ _. k)
            (λ _. k)))

    pub fs_getlock-Keeps :
        (f : ℕ) (lock : FsLock) → Has f fds → Returns (Kept2 fds) (fs_getlock os s f lock)
    unfolding fs_getlock
    fs_getlock-Keeps f lock h = with_file os s fds k (Kept2 fds) f _ h (λ file p.
        Returns-if (Kept2 fds) (no_file os file) _ _ k (
          Returns-Sys (Kept2 fds) (os.fcntl_getlk s.host file.u (flock_of os lock)).0 _ _ (λ _. k)
            (λ _. k)))
