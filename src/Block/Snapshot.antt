-- ===== src/Block/Snapshot.antt =====
-- What is written to a block device in snapshot mode is read back from its table.
use spike_virtio_devices.Prelude.{
  ℕ, zero, suc, ◌+◌, ◌-◌, ◌*◌, ◌^◌, ◌≤◌, ◌<◌, ◌≡◌, ◌⊎◌, inl, inr, refl, ap, subst, ◌∙◌, arith, true,
  false, List, length, get_or, set, take, drop, length-take, length-drop, length-set, get_or-take,
  get_or-drop, get_or-set_self, get_or-set_ne, Option, none, some, ltb, leb, lt→ltb, add64, sext64,
}
use spike_virtio_devices.Prelude.Outcome.{done}
use spike_virtio_devices.Virtio.Chain.{blit}
use spike_virtio_devices.Virtio.Chain.Blit.{not-ltb, length-blit, get_or-blit}
use spike_virtio_devices.Block.File.{
  Stdio, BlockFile, snapshot, sector_size, rounds, read_sector, read_snapshot, read_open,
  bf_read_async, write_snapshot, write_mode, bf_write_async,
}
use native.Mathlib.Decide.{dec_lt}

-- Sector `j` of a buffer.
abbrev pub sector : List ℕ → ℕ → List ℕ
sector buf j = take sector_size (drop (sector_size * j) buf)

length-sector :
    (buf : List ℕ) (j : ℕ)
    → sector_size * (j + 1) ≤ length buf
    → length (sector buf j) ≡ sector_size
length-sector buf j room =
    omega (
      arith,
      length-take sector_size (drop (sector_size * j) buf),
      length-drop (sector_size * j) buf,
    )

get_or-sector :
    (buf : List ℕ) (j i : ℕ)
    → i < sector_size
    → get_or (sector buf j) i 0 ≡ get_or buf (sector_size * j + i) 0
get_or-sector buf j i h =
    get_or-take sector_size (drop (sector_size * j) buf) i 0 h
    ∙ get_or-drop (sector_size * j) buf i 0

abbrev pub Table : Type 0
Table = List (Option (List ℕ))

-- A file that is open in snapshot mode.
abbrev pub snapshot_file : {F : Type 0} → F → ℕ → Table → BlockFile F
snapshot_file file nb_sectors tb = record {
  f = some file;
  nb_sectors = nb_sectors;
  mode = snapshot;
  sector_table = tb;
}

module _ {F : Type 0} (io : Stdio F) (file : F) (nb_sectors : ℕ) (start_table : Table) (s : ℕ)
    (buf : List ℕ) (n : ℕ) where
  abbrev with_table : Table → BlockFile F
  with_table = snapshot_file file nb_sectors

  -- The first `k` sectors are in the table, and nothing else has changed.
  abbrev Written : ℕ → Table → Type 0
  Written k tb =
      (length tb ≡ length start_table)
      × ((j : ℕ) → j < k → get_or tb (s + j) none ≡ some (sector buf j))
      × ((i : ℕ) → i < s ⊎ s + k ≤ i → get_or tb i none ≡ get_or start_table i none)

  Written-suc :
      (k : ℕ) (tb : Table)
      → s + k < length tb
      → Written k tb
      → Written (k + 1) (set tb (s + k) (some (sector buf k)))
  Written-suc k tb room w =
      let x = some (sector buf k) in
      (
        length-set tb (s + k) x ∙ w.0,
        λ j lt. elim (dec_lt j k) [
          | yes old ↦ get_or-set_ne tb (s + k) (s + j) x none (omega arith) ∙ w.1 j old
          | no new ↦ let e : j ≡ k = omega arith in rw e (get_or-set_self tb (s + k) x none room)
        ],
        λ i out.
            get_or-set_ne tb (s + k) i x none (λ e. ground (arith, out))
            ∙ w.2 i (elim out [ inl below ↦ inl below | inr above ↦ inr (omega arith) ]),
      )

  module _ (fits : s + n ≤ length start_table) (small : length start_table < 2 ^ 63)
      (whole : sector_size * n ≤ length buf) where
    write_from :
        (r k : ℕ) (tb : Table)
        → r + k ≡ n
        → Written k tb
        → (tb' : Table) × (write_snapshot io r (with_table tb) (s + k) buf (sector_size * k)
            ≡ done (with_table tb'))
          × Written n tb'
    unfolding write_snapshot
    write_from zero k tb e w = (tb, refl, subst (λ j. Written j tb) (omega arith) w)
    write_from (suc r) k tb e w =
        let in_table : ltb (s + k) (length tb) ≡ true = lt→ltb _ _ (omega (arith, w.0)) in
        let room : leb (sector_size * k + sector_size) (length buf) ≡ true = ground arith in
        let next : add64 (s + k) 1 ≡ s + (k + 1) = omega arith in
        let pos : sector_size * k + sector_size ≡ sector_size * (k + 1) = omega arith in
        rw (in_table, room, next, pos)
          (write_from r (k + 1) (set tb (s + k) (some (sector buf k))) (omega arith)
            (Written-suc k tb (omega (arith, w.0)) w))

  -- The first `k` sectors have been read, and the rest of the buffer is as it was.
  abbrev HasRead : List ℕ → ℕ → List ℕ → Type 0
  HasRead out k now =
      (length now ≡ length out) × ((i : ℕ) → i < sector_size * k → get_or now i 0 ≡ get_or buf i 0)

  HasRead-suc :
      (out now : List ℕ) (k : ℕ)
      → sector_size * (k + 1) ≤ length out
      → sector_size * (k + 1) ≤ length buf
      → HasRead out k now
      → HasRead out (k + 1) (blit now (sector_size * k) (sector buf k))
  HasRead-suc out now k room whole h =
      let len = length-sector buf k whole in
      let fits : sector_size * k + length (sector buf k) ≤ length now = omega (arith, len, h.0) in
      (
        length-blit now (sector buf k) (sector_size * k) fits ∙ h.0,
        λ i lt. elim (dec_lt i (sector_size * k)) [
          | yes old ↦
              let before : ltb i (sector_size * k) ≡ true = lt→ltb _ _ old in
              get_or-blit now (sector buf k) (sector_size * k) i fits ∙ rw before (h.1 i old)
          | no new ↦
              let index : sector_size * k + (i - sector_size * k) ≡ i = omega arith in
              let behind : ltb i (sector_size * k) ≡ false = not-ltb i (sector_size * k) new in
              let inside : ltb i (sector_size * k + length (sector buf k)) ≡ true =
                lt→ltb _ _ (omega (arith, len)) in
              get_or-blit now (sector buf k) (sector_size * k) i fits
              ∙ rw (behind, inside)
                  (get_or-sector buf k (i - sector_size * k) (omega arith)
                    ∙ ap (λ j. get_or buf j 0) index)
        ],
      )

  module _ (tb : Table) (w : Written n tb) (fits : s + n ≤ length start_table)
      (small : length start_table < 2 ^ 63) (whole : sector_size * n ≤ length buf) (out : List ℕ)
      (room : sector_size * n ≤ length out) where
    read_from :
        (r k : ℕ) (now : List ℕ)
        → r + k ≡ n
        → HasRead out k now
        → (now' : List ℕ) × (read_snapshot io r (with_table tb) (s + k) now (sector_size * k)
            ≡ done (now', with_table tb))
          × HasRead out n now'
    unfolding read_snapshot read_sector
    read_from zero k now e h = (now, refl, subst (λ j. HasRead out j now) (omega arith) h)
    read_from (suc r) k now e h =
        let in_table : ltb (s + k) (length tb) ≡ true = lt→ltb _ _ (omega (arith, w.0)) in
        let in_buf : leb (sector_size * k + sector_size) (length now) ≡ true =
          ground (arith, h.0) in
        let next : add64 (s + k) 1 ≡ s + (k + 1) = omega arith in
        let pos : sector_size * k + sector_size ≡ sector_size * (k + 1) = omega arith in
        rw (in_table, w.1 k (omega arith), in_buf, next, pos)
          (read_from r (k + 1) (blit now (sector_size * k) (sector buf k)) (omega arith)
            (HasRead-suc out now k (omega arith) (omega arith) h))

  bf_write_async_done :
      (tb : Table)
      → n < 2 ^ 31
      → s + n ≤ nb_sectors
      → nb_sectors < 2 ^ 63
      → write_snapshot io n (with_table start_table) s buf 0 ≡ done (with_table tb)
      → bf_write_async io (with_table start_table) s buf n ≡ done (0, with_table tb)
  unfolding bf_write_async write_mode
  bf_write_async_done tb int inside small run =
      let counted : rounds n ≡ n = ground arith in
      let checked : ltb nb_sectors (add64 s (sext64 n)) ≡ false = ground arith in
      rw (checked, counted, run)

  bf_read_async_done :
      (tb : Table) (out now : List ℕ)
      → n < 2 ^ 31
      → read_snapshot io n (with_table tb) s out 0 ≡ done (now, with_table tb)
      → bf_read_async io (with_table tb) s out n ≡ done (0, now, with_table tb)
  unfolding bf_read_async read_open
  bf_read_async_done tb out now int run =
      let counted : rounds n ≡ n = ground arith in rw (counted, run)

  -- In snapshot mode, `n` sectors that lie in the block device and in the two buffers are
  -- written without touching the file or any other sector of the table, and are then read back
  -- byte for byte.
  pub bf_read_async-bf_write_async :
      (out : List ℕ)
      → n < 2 ^ 31
      → s + n ≤ nb_sectors
      → nb_sectors ≤ length start_table
      → length start_table < 2 ^ 63
      → sector_size * n ≤ length buf
      → sector_size * n ≤ length out
      → (tb : Table) × (bf_write_async io (snapshot_file file nb_sectors start_table) s buf n
          ≡ done (0, snapshot_file file nb_sectors tb))
        × ((i : ℕ) → i < s ⊎ s + n ≤ i → get_or tb i none ≡ get_or start_table i none)
        × ((now : List ℕ) × (bf_read_async io (snapshot_file file nb_sectors tb) s out n
              ≡ done (0, now, snapshot_file file nb_sectors tb))
            × ((i : ℕ) → i < sector_size * n → get_or now i 0 ≡ get_or buf i 0))
  bf_read_async-bf_write_async out int inside table small whole room =
      let fits : s + n ≤ length start_table = omega arith in
      let wrote =
        write_from fits small whole n 0 start_table (omega arith)
          (refl, λ j lt. absurd (omega arith), λ i o. refl) in
      let here : s ≡ s + 0 = omega arith in
      let write_run =
        ap (λ j. write_snapshot io n (with_table start_table) j buf 0) here ∙ wrote.1 in
      let read =
        read_from wrote.0 wrote.2 fits small whole out room n 0 out (omega arith)
          (refl, λ i lt. absurd (omega arith)) in
      let read_run = ap (λ j. read_snapshot io n (with_table wrote.0) j out 0) here ∙ read.1 in
      (
        wrote.0,
        bf_write_async_done wrote.0 int inside (omega arith) write_run,
        wrote.2.2,
        (read.0, bf_read_async_done wrote.0 out read.0 int read_run, read.2.1),
      )
