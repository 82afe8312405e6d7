-- ===== src/Disk/Listing.antt =====
-- What a listing of a directory consists of, and `fs_readdir` of src/fs_disk.c.
use spike_virtio_devices.Prelude.{
  get_or, Bool, ◌-◌, ℕ, zero, suc, ◌+◌, ◌^◌, ◌≤◌, ◌<◌, ◌≡◌, refl, sym, ap, subst, ◌∙◌, arith, inl,
  inr, true, false, Bool-cases, not, ◌||◌, Option, none, some, List, [], ◌∷◌, ◌++◌, ◌==◌, length,
  length-append, take, slt, ltb, if◌then◌else◌, ◌*◌, All, u8, u16,
}
use spike_virtio_devices.Prelude.Outcome.{
  done, within, ◌>>=◌, Outcome, Returns, Returns->>=, Returns-test,
}
use spike_virtio_devices.Libc.{strlen, text, ends}
use spike_virtio_devices.Libc.Text.{strlen-text, take-text}
use spike_virtio_devices.Virtio.Chain.Sets.{bytes16, bytes32, bytes64}
use spike_virtio_devices.NineP.Strings.{IsChar}
use spike_virtio_devices.Disk.{FsFile, Disk, file_at, with_host}
use spike_virtio_devices.Disk.Calls.{Host, IsHost, HasName, Fewer, Dirent}
use spike_virtio_devices.Disk.Contents.{
  not_open, type_of, dt_unknown, entry_bytes, entry_type, one_entry, read_entries, fs_readdir,
}
use spike_virtio_devices.Disk.Paths.{compose_path_lem, length-ends}
use spike_virtio_devices.Disk.Files.{HasPath, Keeps}

-- An entry is its qid, offset and type in 22 bytes, the length of its name in 2, and the name, which
-- holds no null.
pub data AreEntries : List ℕ → Type 0 where
  none_yet : AreEntries []
  one_more :
      {out : List ℕ} (head name : List ℕ)
      → AreEntries out
      → length head ≡ 22
      → length name < 256
      → All IsChar name
      → AreEntries (out ++ (head ++ (bytes16 (length name) ++ name)))

text-IsChar : (str : List ℕ) → All IsChar (text str)
text-IsChar [] = tt
text-IsChar (c ∷ str) = elim (Bool-cases (c == 0)) [
  | inl null ↦ rw null tt
  | inr more ↦ rw more (ground (arith, more), text-IsChar str)
]

entry_bytes-entry :
    (out : List ℕ) (d_type ino offset : ℕ) (name : List ℕ)
    → AreEntries out
    → All IsChar name
    → length name < 256
    → AreEntries (out ++ entry_bytes d_type ino offset name)
entry_bytes-entry out d_type ino offset name h chars short =
    let fits : u16 (length name) ≡ length name = omega arith in
    rw fits (
      one_more
        (u8 (type_of d_type) ∷ (bytes32 0 ++ (bytes64 ino ++ (bytes64 offset ++ (u8 d_type ∷ [])))))
        name h refl short chars)

entry_bytes-size :
    (out : List ℕ) (d_type ino offset : ℕ) (name : List ℕ)
    → length (out ++ entry_bytes d_type ino offset name) ≡ length out + (24 + length name)
entry_bytes-size out d_type ino offset name =
    omega (arith, length-append out (entry_bytes d_type ino offset name))

room_left : (count pos end : ℕ) → pos ≡ end → end < 2 ^ 31 → slt count pos ≡ false → end ≤ count
room_left count pos end at small unstopped = ground arith

-- The bytes written are whole entries and fit in the buffer.
abbrev pub Listed : {H : Type 0} → ℕ → List ℕ × H → Type 0
Listed count r = (length r.0 ≤ count) × AreEntries r.0

-- The answer of `fs_readdir`, by whether the file is open and a directory: for an open directory how
-- many bytes it has written, and otherwise `-P9_EPROTO`, with nothing written or changed.
abbrev pub Answers :
    {H : Type 0} → Disk H → List ℕ → ℕ → (is_opened is_dir : Bool) → ℕ × List ℕ × Disk H → Type 0
Answers s fds count true true r = Keeps fds r.2 × (r.0 ≡ length r.1) × Listed count (r.1, r.2)
Answers s fds count true false r = (r.0 ≡ 2 ^ 32 - 71) × (r.1 ≡ []) × (r.2 ≡ s)
Answers s fds count false is_dir r = (r.0 ≡ 2 ^ 32 - 71) × (r.1 ≡ []) × (r.2 ≡ s)

pub Answers-Keeps :
    {H : Type 0} (s : Disk H) (fds : List ℕ) (count : ℕ) (is_opened is_dir : Bool)
    → Keeps fds s
    → (r : ℕ × List ℕ × Disk H) → Answers s fds count is_opened is_dir r
    → Keeps fds r.2
Answers-Keeps s fds count true true k r a = a.0
Answers-Keeps s fds count true false k r a = subst (Keeps fds) (sym a.2) k
Answers-Keeps s fds count false is_dir k r a = subst (Keeps fds) (sym a.2) k

module _ {H : Type 0} (os : Host H) (host : IsHost os) (count : ℕ) where
  -- What is written and what is still to come cannot make `pos` too large.
  abbrev Room : ℕ → List ℕ × H → Type 0
  Room dirp r = length r.0 + 280 * host.left r.1 dirp < 2 ^ 31

  entry_type-Returns :
      (h : H) (dir : List ℕ) (de : Dirent) (dirp : ℕ)
      → ends dir ≡ true
      → ends de.d_name ≡ true
      → Returns (λ r. host.left r.1 dirp ≤ host.left h dirp) (entry_type os h dir de)
  unfolding entry_type
  entry_type-Returns h dir de dirp d n =
      let Composed : List ℕ → Type 0 =
        λ out. (ends out ≡ true) × (text out ≡ text dir ++ (47 ∷ text de.d_name)) in
      let Left : ℕ × H → Type 0 = λ r. host.left r.1 dirp ≤ host.left h dirp in
      Returns-test Left (de.d_type == dt_unknown) _ _
        (λ _.
          Returns->>= Composed Left _ _ (compose_path_lem dir de.d_name d n)
            (λ path _. host.lstat_left h path dirp))
        (λ _. omega arith)

  -- Behind an entry that fits, and whose type has been found.
  goes_on :
      (next : H → List ℕ → Outcome (List ℕ × H)) (h g : H) (file : FsFile) (out : List ℕ)
      (de : Dirent) (m d_type : ℕ)
      → HasName (some de)
      → length (text de.d_name) < 256
      → Listed {H = H} count (out, h)
      → ((g' : H) (more : List ℕ)
          → Listed {H = H} count (more, g')
          → Room file.u (more, g')
          → length out + 24 ≤ length more
          → Returns (Listed count) (next g' more))
      → m ≡ length (text de.d_name)
      → length out + (24 + length (text de.d_name)) ≤ count
      → length out + (24 + length (text de.d_name)) + 280 * host.left g file.u < 2 ^ 31
      → Returns
          (Listed count)
          (next g (out ++ entry_bytes d_type de.d_ino (os.telldir h file.u).0 (take m de.d_name)))
  goes_on next h g file out de m d_type n short l later e fits room =
      let name : take m de.d_name ≡ text de.d_name =
        ap (λ i. take i de.d_name) e ∙ take-text de.d_name in
      let offset = (os.telldir h file.u).0 in
      let more = out ++ entry_bytes d_type de.d_ino offset (text de.d_name) in
      let size = entry_bytes-size out d_type de.d_ino offset (text de.d_name) in
      subst
        (λ chars. Returns (Listed count) (next g (out ++ entry_bytes d_type de.d_ino offset chars)))
        (sym name)
        (later g more
          (
            omega (arith, size, fits),
            entry_bytes-entry out d_type de.d_ino offset (text de.d_name) l.1
                (text-IsChar de.d_name) short,
          )
          (omega (arith, size, room)) (omega (arith, size)))

  one_entry-Listed :
      (next : H → List ℕ → Outcome (List ℕ × H)) (h : H) (file : FsFile) (out : List ℕ)
      (entry : Option Dirent) (before : ℕ)
      → ends file.path ≡ true
      → HasName entry
      → Fewer entry (host.left h file.u) before
      → length out + 280 * before < 2 ^ 31
      → Listed {H = H} count (out, h)
      → ((g : H) (more : List ℕ)
          → Listed {H = H} count (more, g)
          → Room file.u (more, g)
          → length out + 24 ≤ length more
          → Returns (Listed count) (next g more))
      → Returns (Listed count) (one_entry os next h file count out entry)
  unfolding one_entry
  one_entry-Listed next h file out none before p n fewer room l later = l
  one_entry-Listed next h file out (some de) before p n fewer room l later =
      let k = length (text de.d_name) in
      let short : k < 256 = omega (arith, length-ends de.d_name n.0, n.1) in
      let small : length out + (24 + k) < 2 ^ 31 = omega (arith, short, fewer, room) in
      let no_overflow : ltb (length out + (24 + k)) (2 ^ 31) ≡ true = ground (arith, small) in
      Returns->>= (λ m. m ≡ k) (Listed count) (strlen de.d_name) _
        (rw (strlen-text de.d_name n.0) refl)
        (λ m e.
          Returns->>= (λ pos. pos ≡ length out + (24 + k)) (Listed count)
            (within (ltb (length out + (24 + m)) (2 ^ 31)) (length out + (24 + m))) _
            (rw (e, no_overflow) refl)
            (λ pos at.
              Returns-test (Listed count) (slt count pos) _ _ (λ _. l)
                (λ unstopped.
                  let before_type = (os.telldir h file.u).1 in
                  Returns->>= (λ r. host.left r.1 file.u ≤ host.left before_type file.u)
                    (Listed count) _ _ (entry_type-Returns before_type file.path de file.u p n.0)
                    (λ r nearer.
                      goes_on next h r.1 file out de m r.0 n short l later e
                        (room_left count pos (length out + (24 + k)) at small unstopped)
                        (omega (arith, short, fewer, room, nearer, host.telldir_left h file.u))))))

  read_entries-Listed :
      (fuel : ℕ) (h : H) (file : FsFile) (out : List ℕ)
      → ends file.path ≡ true
      → Listed {H = H} count (out, h)
      → Room file.u (out, h)
      → count < fuel + length out
      → Returns (Listed count) (read_entries os fuel h file count out)
  unfolding read_entries
  read_entries-Listed zero h file out p l room enough = absurd (omega (arith, l.0))
  read_entries-Listed (suc fuel) h file out p l room enough =
      one_entry-Listed _ _ file out _ (host.left h file.u) p (host.entry_name h file.u)
        (host.readdir_left h file.u) room l
        (λ g more lm rm longer. read_entries-Listed fuel g file more p lm rm (omega arith))

  module _ (s : Disk H) (fds : List ℕ) (k : Keeps fds s) where
    listed :
        (file : FsFile) (offset : ℕ) (is_opened is_dir : Bool)
        → ends file.path ≡ true
        → Returns (Answers s fds count is_opened is_dir) (
            if not is_opened || not is_dir then done (not_open, [], s) else (do
              let h =
                  if offset == 0
                  then os.rewinddir s.host file.u
                  else os.seekdir s.host file.u offset
              (out, h') ← read_entries os (suc count) h file count []
              done (length out, out, with_host s h')))
    listed file offset false is_dir p = (refl, refl, refl)
    listed file offset true false p = (refl, refl, refl)
    listed file offset true true p =
        let start_of =
          if offset == 0 then os.rewinddir s.host file.u else os.seekdir s.host file.u offset in
        Returns->>= (Listed count) (Answers s fds count true true) _ _
          (read_entries-Listed (suc count) start_of file [] p (omega arith, none_yet)
            (omega (arith, host.left_few start_of file.u)) (omega arith))
          (λ r l. (k, refl, l))

    -- For a file that is not freed, of a disk whose files not freed are those of a list, each
    -- once, on a host whose directories have at most 2^22 entries with names, `fs_readdir` with
    -- any count returns: if the file is open and a directory, the number of bytes it wrote,
    -- which is at most the count and which are whole entries, each of 24 bytes with the length
    -- of its name and the name, and the files are those of the list as before; if it is not
    -- open or not a directory, the error EPROTO, with nothing written and the disk as it was.
    pub fs_readdir_lem :
        (f offset : ℕ) (file : FsFile)
        → get_or s.files f none ≡ some file
        → Returns (Answers s fds count file.is_opened file.is_dir) (fs_readdir os s f offset count)
    unfolding fs_readdir
    fs_readdir_lem f offset file e =
        rw (file_at, e)
          (listed file offset file.is_opened file.is_dir (subst HasPath e (k.paths f)))
