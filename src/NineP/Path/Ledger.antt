-- ===== src/NineP/Path/Ledger.antt =====
-- The files that a walk along a path of src/fs.c leaves open.
use spike_virtio_devices.Prelude.{
  ℕ, zero, suc, ◌<◌, ◌^◌, ◌≡◌, refl, subst, arith, Bool, true, false, Bool-cases, inl, inr, not,
  Option, none, some, List, [], ◌∷◌, ◌++◌, ◌==◌, slt, is_neg, if◌then◌else◌, length, All,
}
use spike_virtio_devices.Prelude.Outcome.{Outcome, done, Returns}
use spike_virtio_devices.Libc.{ends}
use spike_virtio_devices.Libc.Text.{ends-tail, terminated-ends}
use spike_virtio_devices.NineP.Fs.{FsDevice}
use spike_virtio_devices.NineP.Fs.Laws.{IsText, Has, IsFileSystem}
use spike_virtio_devices.NineP.Path.{
  slash, split_path, skip_slash, Walked, let_go, walk_loop, fs_walk_path1, fs_walk_path,
}

-- What is behind the slash is a shorter C string.
abbrev IsSplit : List ℕ → Option (List ℕ × List ℕ) → Type 0
IsSplit path none = Unit
IsSplit path (some (name, behind)) = (ends behind ≡ true) × (length behind < length path)

split_path-cons :
    (c : ℕ) (path : List ℕ)
    → c == slash ≡ false
    → c == 0 ≡ false
    → (r : Option (List ℕ × List ℕ)) → split_path path ≡ done r
    → IsSplit path r
    → (r' : Option (List ℕ × List ℕ)) × (split_path (c ∷ path) ≡ done r') × IsSplit (c ∷ path) r'
unfolding split_path
split_path-cons c path other more none e k = (none, rw (other, more, e), tt)
split_path-cons c path other more (some (name, behind)) e k =
    (some (c ∷ name, behind), rw (other, more, e), (k.0, omega (arith, k.1)))

split_path-IsSplit :
    (path : List ℕ)
    → ends path ≡ true
    → (r : Option (List ℕ × List ℕ)) × (split_path path ≡ done r) × IsSplit path r
unfolding split_path
split_path-IsSplit [] h = absurd (ground arith)
split_path-IsSplit (c ∷ path) h = elim (Bool-cases (c == slash)) [
  | inl found ↦
      let more : c == 0 ≡ false = ground arith in
      (some ([], path), rw found, (ends-tail c path more h, omega arith))
  | inr other ↦ elim (Bool-cases (c == 0)) [
    | inl null ↦ (none, rw (other, null), tt)
    | inr more ↦
        let rest = split_path-IsSplit path (ends-tail c path more h) in
        split_path-cons c path other more rest.0 rest.1 rest.2
  ]
]

module _ {S D : Type 0} (dev : FsDevice S D) (Inv : S → List D → Type 0) where
  -- A walk of few names gives a file and the number of the names it has found, and no error. What
  -- `fs_walk_path1` deletes where a walk has failed is that file.
  abbrev pub GivesFiles : Type 0
  GivesFiles =
      (s : S) (fs : List D) (f : D) (names : List (List ℕ))
      → Inv s fs
      → Has f fs
      → All IsText names
      → length names < 2 ^ 16
      → is_neg (dev.fs_walk s f names).0 ≡ false

  -- What is open when a walk along a path returns: its file, if there is one, and `fs`.
  abbrev pub Leaves : List D → Walked S D → Type 0
  Leaves fs r = elim r.file [ none ↦ Inv r.fs fs | some f ↦ Inv r.fs (f ∷ fs) ]

-- The open files in a round of the loop: the caller's `fs`, and the file walked from, if that is the
-- loop's own.
abbrev held : {D : Type 0} → Bool → D → List D → List D
held true f fs = fs
held false f fs = f ∷ fs

module _ {S D : Type 0} (dev : FsDevice S D) (Inv : S → List D → Type 0)
    (laws : IsFileSystem dev Inv) (gives : GivesFiles dev Inv) (fs : List D) where
  -- The file walked from goes, and the one walked to stays.
  let_go-held :
      (s : S) (f f1 : D) (is_first : Bool)
      → Inv s (f1 ∷ held is_first f fs)
      → Inv (let_go dev s f is_first) (f1 ∷ fs)
  let_go-held s f f1 true k = k
  let_go-held s f f1 false k = laws.deleted s f (f1 ∷ fs) (laws.to_front s f (f1 ∷ []) fs k)

  walked :
      (s : S) (f : D) (is_first : Bool) (name : List ℕ)
      → Inv s (held is_first f fs)
      → Has f (held is_first f fs)
      → IsText name
      → let r = dev.fs_walk s f (name ∷ []) in Inv (let_go dev r.3 f is_first) (r.1 ∷ fs)
  walked s f is_first name k h t =
      let r = dev.fs_walk s f (name ∷ []) in
      let few : length (name ∷ []) < 2 ^ 16 = omega arith in
      let found = gives s (held is_first f fs) f (name ∷ []) k h (t, tt) few in
      let_go-held r.3 f r.1 is_first (
        subst (λ b. Inv r.3 (if b then held is_first f fs else r.1 ∷ held is_first f fs)) found
          (laws.walk s (held is_first f fs) f (name ∷ []) k h (t, tt) few))

  -- One walk, whose file is let go again where it was not found.
  walked_on :
      (s : S) (f : D) (is_first : Bool) (name : List ℕ) (next : Outcome (Walked S D))
      → Inv s (held is_first f fs)
      → Has f (held is_first f fs)
      → IsText name
      → (let r = dev.fs_walk s f (name ∷ []) in
          Inv (let_go dev r.3 f is_first) (r.1 ∷ fs) → Returns (Leaves dev Inv fs) next)
      → let r = dev.fs_walk s f (name ∷ []) in
        Returns (Leaves dev Inv fs) (
          if not (slt 0 r.0)
          then done (record {
            file = none;
            pname = none;
            fs = dev.fs_delete (let_go dev r.3 f is_first) r.1;
          })
          else next)
  walked_on s f is_first name next k h t more =
      let r = dev.fs_walk s f (name ∷ []) in
      let kept = walked s f is_first name k h t in
      elim (Bool-cases (slt 0 r.0)) [
        | inl found ↦ rw found (more kept)
        | inr lost ↦ rw lost (laws.deleted (let_go dev r.3 f is_first) r.1 fs kept)
      ]

  -- A round of the loop, where the shorter paths are known to leave the right files.
  walk_round :
      (fuel : ℕ) (s : S) (f : D) (is_first : Bool) (path : List ℕ) (r : Option (List ℕ × List ℕ))
      → Inv s (held is_first f fs)
      → Has f (held is_first f fs)
      → ends path ≡ true
      → split_path path ≡ done r
      → IsSplit path r
      → ((s2 : S) (f1 : D) (behind : List ℕ)
          → Inv s2 (f1 ∷ fs)
          → ends behind ≡ true
          → length behind < length path
          → Returns (Leaves dev Inv fs) (walk_loop dev fuel false s2 f1 false behind))
      → Returns (Leaves dev Inv fs) (walk_loop dev (suc fuel) false s f is_first path)
  unfolding walk_loop
  walk_round fuel s f is_first path none k h t e split shorter =
      rw e (walked_on s f is_first path _ k h t (λ kept. kept))
  walk_round fuel s f is_first path (some (name, behind)) k h t e split shorter =
      let r = dev.fs_walk s f ((name ++ (0 ∷ [])) ∷ []) in
      rw e (
        walked_on s f is_first (name ++ (0 ∷ [])) _ k h (terminated-ends name)
          (λ kept. shorter (let_go dev r.3 f is_first) r.1 behind kept split.0 split.1))

  walk_loop-Leaves :
      (fuel : ℕ) (s : S) (f : D) (is_first : Bool) (path : List ℕ)
      → Inv s (held is_first f fs)
      → Has f (held is_first f fs)
      → ends path ≡ true
      → length path < fuel
      → Returns (Leaves dev Inv fs) (walk_loop dev fuel false s f is_first path)
  walk_loop-Leaves zero s f is_first path k h t enough = absurd (omega arith)
  walk_loop-Leaves (suc fuel) s f is_first path k h t enough =
      let p = split_path-IsSplit path t in
      walk_round fuel s f is_first path p.0 k h t p.1 p.2 (λ s2 f1 behind kept ended less.
        walk_loop-Leaves fuel s2 f1 false behind kept (inl refl) ended (omega arith))

  -- On a C string and with more fuel than it has bytes, from a file of the list of open files,
  -- given a file system whose calls keep an invariant on its state and that list and where a
  -- walk of fewer than 2^16 names from an open file gives a file and no error, `fs_walk_path`
  -- returns: the open files are then those of the list, and if it returns a file, also that
  -- one; every other file it has opened is deleted.
  pub fs_walk_path-Leaves :
      (fuel : ℕ) (s : S) (f : D) (path : List ℕ)
      → Inv s fs
      → Has f fs
      → ends path ≡ true
      → length path < fuel
      → Returns (Leaves dev Inv fs) (fs_walk_path dev fuel s f path)
  unfolding fs_walk_path fs_walk_path1 skip_slash
  fs_walk_path-Leaves fuel s f [] k h t enough = absurd (ground arith)
  fs_walk_path-Leaves fuel s f (c ∷ path) k h t enough = elim (Bool-cases (c == slash)) [
    | inl found ↦
        let more : c == 0 ≡ false = ground arith in
        rw found (walk_loop-Leaves fuel s f true path k h (ends-tail c path more t) (omega arith))
    | inr other ↦ rw other (walk_loop-Leaves fuel s f true (c ∷ path) k h t enough)
  ]
