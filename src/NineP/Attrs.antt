-- ===== src/NineP/Attrs.antt =====
-- src/virtio.cc: the requests of the 9P device on the file system, on attributes and on links, and
-- those that do no work.
use spike_virtio_devices.Prelude.{ℕ, List, [], ◌∷◌, ◌==◌, ltb, if◌then◌else◌, replicate}
use spike_virtio_devices.Prelude.Outcome.{Outcome}
use spike_virtio_devices.Mmu.{Mmu}
use spike_virtio_devices.Virtio.Device.{Machine}
use spike_virtio_devices.NineP.{NineP}
use spike_virtio_devices.NineP.Fs.{FsDevice, FsStat}
use spike_virtio_devices.NineP.Message.{Fmt, fmt_h, fmt_w, fmt_d, fmt_s, fmt_q, Args}
use spike_virtio_devices.NineP.Reply.{
  Request, with_fs, reply, reply_error, reply_args, reply_empty, with_args, with_fid, minus_enotsup,
}

-- `MAX_9P_MSIZE`
abbrev pub max_msize : ℕ
max_msize = 0xE000

-- "9P2000.L" with its null.
abbrev pub version_name : List ℕ
version_name = 57 ∷ 80 ∷ 50 ∷ 48 ∷ 48 ∷ 48 ∷ 46 ∷ 76 ∷ 0 ∷ []

abbrev pub stat_fmt : List Fmt
stat_fmt = fmt_d ∷ fmt_q ∷ fmt_w ∷ fmt_w ∷ fmt_w ∷ replicate 15 fmt_d

abbrev pub stat_args : ℕ → FsStat → Args stat_fmt
stat_args mask st = (
  mask,
  (
    st.qid,
    (
      st.st_mode,
      (
        st.st_uid,
        (
          st.st_gid,
          (
            st.st_nlink,
            (
              st.st_rdev,
              (
                st.st_size,
                (
                  st.st_blksize,
                  (
                    st.st_blocks,
                    (
                      st.st_atime_sec,
                      (
                        st.st_atime_nsec,
                        (
                          st.st_mtime_sec,
                          (
                            st.st_mtime_nsec,
                            (st.st_ctime_sec, (st.st_ctime_nsec, (0, (0, (0, (0, tt)))))),
                          ),
                        ),
                      ),
                    ),
                  ),
                ),
              ),
            ),
          ),
        ),
      ),
    ),
  ),
)

module _ {R S D : Type 0} (mmu : Mmu R) (fuel : ℕ) (malloc : ℕ → List ℕ) (dev : FsDevice S D)
    (rq : Request) where
  -- The two constants are `int`s; the upper half of what `va_arg` reads for the id is taken as 0.
  unfoldable pub statfs : Machine R (NineP S D) → Outcome (Machine R (NineP S D))
  statfs m =
      let (st, fs) = dev.fs_statfs m.own.fs in
      reply_args mmu fuel malloc rq (with_fs m fs)
        (fmt_w ∷ fmt_w ∷ fmt_d ∷ fmt_d ∷ fmt_d ∷ fmt_d ∷ fmt_d ∷ fmt_d ∷ fmt_w ∷ [])
        (
          0,
          (
            st.f_bsize,
            (st.f_blocks, (st.f_bfree, (st.f_bavail, (st.f_files, (st.f_ffree, (0, (256, tt))))))),
          ),
        )

  -- The target is what `fs_readlink` left in `char buf1[1024]`.
  unfoldable pub readlink : Machine R (NineP S D) → ℕ → Outcome (Machine R (NineP S D))
  readlink m offset = with_args mmu fuel malloc rq m offset (fmt_w ∷ []) (λ (fid, _) _.
      with_fid mmu fuel malloc rq m fid (λ f.
        let (err, buf1, fs) = dev.fs_readlink m.own.fs 1024 f in
        if err == 0
        then reply_args mmu fuel malloc rq (with_fs m fs) (fmt_s ∷ []) (buf1, tt)
        else reply_error mmu fuel malloc rq (with_fs m fs) err))

  unfoldable pub getattr : Machine R (NineP S D) → ℕ → Outcome (Machine R (NineP S D))
  getattr m offset =
      with_args mmu fuel malloc rq m offset (fmt_w ∷ fmt_d ∷ []) (λ (fid, (mask, _)) _.
        with_fid mmu fuel malloc rq m fid (λ f.
          let (err, st, fs) = dev.fs_stat m.own.fs f in
          if err == 0
          then reply_args mmu fuel malloc rq (with_fs m fs) stat_fmt (stat_args mask st)
          else reply_error mmu fuel malloc rq (with_fs m fs) err))

  unfoldable pub setattr : Machine R (NineP S D) → ℕ → Outcome (Machine R (NineP S D))
  setattr m offset =
      with_args mmu fuel malloc rq m offset
        (fmt_w ∷ fmt_w ∷ fmt_w ∷ fmt_w ∷ fmt_w ∷ fmt_d ∷ fmt_d ∷ fmt_d ∷ fmt_d ∷ fmt_d ∷ [])
        (λ (
          fid,
          (
            mask,
            (mode, (uid, (gid, (size, (atime_sec, (atime_nsec, (mtime_sec, (mtime_nsec, _)))))))),
          ),
        )
            _.
          with_fid mmu fuel malloc rq m fid (λ f.
            let (err, fs) =
              dev.fs_setattr m.own.fs f mask mode uid gid size atime_sec atime_nsec mtime_sec
                mtime_nsec in
            reply_empty mmu fuel malloc rq (with_fs m fs) err))

  unfoldable pub xattrwalk : Machine R (NineP S D) → Outcome (Machine R (NineP S D))
  xattrwalk m = reply_error mmu fuel malloc rq m minus_enotsup

  unfoldable pub fsync : Machine R (NineP S D) → ℕ → Outcome (Machine R (NineP S D))
  fsync m offset =
      with_args mmu fuel malloc rq m offset (fmt_w ∷ []) (λ _ _. reply mmu fuel malloc rq m [] 0)

  unfoldable pub flush : Machine R (NineP S D) → ℕ → Outcome (Machine R (NineP S D))
  flush m offset =
      with_args mmu fuel malloc rq m offset (fmt_h ∷ []) (λ _ _. reply mmu fuel malloc rq m [] 0)

  unfoldable pub version : Machine R (NineP S D) → ℕ → Outcome (Machine R (NineP S D))
  version m offset =
      with_args mmu fuel malloc rq m offset (fmt_w ∷ fmt_s ∷ []) (λ (msize, (name, _)) _.
        let msize' = if ltb max_msize msize then max_msize else msize in
        reply_args mmu fuel malloc rq (record m { own = record (m.own) { msize = msize' } })
          (fmt_w ∷ fmt_s ∷ []) (msize', (version_name, tt)))
