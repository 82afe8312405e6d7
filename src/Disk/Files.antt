-- ===== src/Disk/Files.antt =====
-- The files of src/fs_disk.c and the pointers to them: an invariant on which are allocated.
use spike_virtio_devices.Prelude.{
  ℕ, zero, suc, ◌+◌, ◌≤◌, ◌<◌, ◌≡◌, ◌≢◌, refl, ap, sym, subst, ◌∙◌, arith, true, false, inl, inr,
  Option, none, some, List, [], ◌∷◌, ◌++◌, ◌==◌, if◌then◌else◌, length, get_or, get_or-set_self,
  get_or-set_ne, set,
}
use spike_virtio_devices.Prelude.Outcome.{Returns}
use spike_virtio_devices.Libc.{ends}
use spike_virtio_devices.NineP.Fs.Laws.{Has}
use spike_virtio_devices.Disk.{FsFile, Disk, file_at, put_file, fid_create}
use native.Mathlib.Decide.{ℕ_discrete}

-- How often a file stands among pointers.
unfoldable pub times : ℕ → List ℕ → ℕ
times f [] = 0
times f (g ∷ fds) = let rest = times f fds in if f == g then 1 + rest else rest

abbrev pub allocated : Option FsFile → ℕ
allocated none = 0
allocated (some file) = 1

abbrev pub HasPath : Option FsFile → Type 0
HasPath none = Unit
HasPath (some file) = ends file.path ≡ true

-- Of the files that were ever allocated, those not freed are those of the list, each once; the
-- paths are C strings.
pub record IsLedger (root_path : List ℕ) (files : List (Option FsFile)) (fds : List ℕ)
    : Type 0 where
  pub root : ends root_path ≡ true
  pub paths : (f : ℕ) → HasPath (get_or files f none)
  pub held : (f : ℕ) → times f fds ≡ allocated (get_or files f none)

abbrev pub Keeps : {H : Type 0} → List ℕ → Disk H → Type 0
Keeps fds s = IsLedger s.root_path s.files fds

-- The disk behind a call, which stands last in what it gives.
abbrev pub Kept1 : {A H : Type 0} → List ℕ → A × Disk H → Type 0
Kept1 fds r = Keeps fds r.1

abbrev pub Kept2 : {A B H : Type 0} → List ℕ → A × B × Disk H → Type 0
Kept2 fds r = Keeps fds r.2

-- Order does not count.
pub times-move : (f g : ℕ) (xs ys : List ℕ) → times f (xs ++ (g ∷ ys)) ≡ times f (g ∷ (xs ++ ys))
unfolding times
times-move f g [] ys = refl
times-move f g (x ∷ xs) ys = ground (arith, times-move f g xs ys)

pub IsLedger-same :
    (root_path : List ℕ) (files : List (Option FsFile)) (fds gds : List ℕ)
    → ((f : ℕ) → times f gds ≡ times f fds)
    → IsLedger root_path files fds
    → IsLedger root_path files gds
IsLedger-same root_path files fds gds e k = record {
  root = k.root;
  paths = k.paths;
  held = λ f. e f ∙ k.held f;
}

times-Has : (f : ℕ) (fds : List ℕ) → Has f fds → 1 ≤ times f fds
unfolding times
times-Has f [] h = absurd h
times-Has f (g ∷ fds) (inl e) = ground (arith, e)
times-Has f (g ∷ fds) (inr h) = ground (arith, times-Has f fds h)

inside :
    (files : List (Option FsFile)) (f : ℕ) (file : FsFile)
    → get_or files f none ≡ some file
    → f < length files
inside [] f file e = absurd (ground (arith, e))
inside (x ∷ files) zero file e = omega arith
inside (x ∷ files) (suc f) file e = omega (arith, inside files f file e)

freed-none : (files : List (Option FsFile)) (f : ℕ) → get_or (set files f none) f none ≡ none
freed-none [] f = refl
freed-none (x ∷ files) zero = refl
freed-none (x ∷ files) (suc f) = freed-none files f

new-some :
    (files : List (Option FsFile)) (x : Option FsFile)
    → get_or (files ++ (x ∷ [])) (length files) none ≡ x
new-some [] x = refl
new-some (y ∷ files) x = new-some files x

past-none : (files : List (Option FsFile)) → get_or files (length files) none ≡ none
past-none [] = refl
past-none (y ∷ files) = past-none files

new-other :
    (files : List (Option FsFile)) (x : Option FsFile) (g : ℕ)
    → length files ≢ g
    → get_or (files ++ (x ∷ [])) g none ≡ get_or files g none
new-other [] x zero h = absurd (h refl)
new-other [] x (suc g) h = refl
new-other (y ∷ files) x zero h = refl
new-other (y ∷ files) x (suc g) h = new-other files x g (λ e. h (ap suc e))

allocated_le : (o : Option FsFile) → allocated o ≤ 1
allocated_le none = omega arith
allocated_le (some file) = omega arith

times-more : (f g : ℕ) (fds : List ℕ) → f ≢ g → times g (f ∷ fds) ≡ times g fds
unfolding times
times-more f g fds h = let no : g == f ≡ false = ground (arith, h) in rw no

times-once : (f : ℕ) (fds : List ℕ) → times f (f ∷ fds) ≡ 1 + times f fds
unfolding times
times-once f fds = ground arith

module _ {H : Type 0} where
  -- What a pointer of the list points to.
  abbrev pub Points : Disk H → ℕ → FsFile → Type 0
  Points s f file = (get_or s.files f none ≡ some file) × (ends file.path ≡ true)

  found_file :
      (s : Disk H) (f : ℕ) (r : Option FsFile)
      → get_or s.files f none ≡ r
      → 1 ≤ allocated r
      → (file : FsFile) × (get_or s.files f none ≡ some file)
  found_file s f none e h = absurd (omega arith)
  found_file s f (some file) e h = (file, e)

  pub file_of :
      (s : Disk H) (fds : List ℕ) (f : ℕ)
      → Keeps fds s
      → Has f fds
      → (file : FsFile) × (get_or s.files f none ≡ some file)
  file_of s fds f k h =
      found_file s f (get_or s.files f none) refl (omega (arith, times-Has f fds h, k.held f))

  pub file_at-Points :
      (s : Disk H) (fds : List ℕ) (f : ℕ)
      → Keeps fds s
      → Has f fds
      → Returns (Points s f) (file_at s f)
  file_at-Points s fds f k h =
      let (file, e) = file_of s fds f k h in rw (file_at, e) (e, subst HasPath e (k.paths f))

  pub put_file-Keeps :
      (s : Disk H) (fds : List ℕ) (f : ℕ) (old file : FsFile)
      → Keeps fds s
      → get_or s.files f none ≡ some old
      → ends file.path ≡ true
      → Keeps fds (put_file s f file)
  put_file-Keeps s fds f old file k e p =
      let at = get_or-set_self s.files f (some file) none (inside s.files f old e) in
      record {
        root = k.root;
        paths = λ g. elim (ℕ_discrete f g) [
          | yes same ↦
              subst (λ i. HasPath (get_or (set s.files f (some file)) i none)) same
                (subst HasPath (sym at) p)
          | no other ↦
              subst HasPath (sym (get_or-set_ne s.files f g (some file) none other)) (k.paths g)
        ];
        held = λ g. elim (ℕ_discrete f g) [
          | yes same ↦
              subst (λ i. times i fds ≡ allocated (get_or (set s.files f (some file)) i none)) same
                (k.held f ∙ ap allocated e ∙ ap allocated (sym at))
          | no other ↦
              k.held g ∙ ap allocated (sym (get_or-set_ne s.files f g (some file) none other))
        ];
      }

  -- A pointer leaves with its file.
  pub freed-Keeps :
      (s : Disk H) (fds : List ℕ) (f : ℕ)
      → Keeps (f ∷ fds) s
      → Keeps fds (record s { files = set s.files f none })
  freed-Keeps s fds f k =
      let none_here = freed-none s.files f in
      record {
        root = k.root;
        paths = λ g. elim (ℕ_discrete f g) [
          | yes same ↦
              subst (λ i. HasPath (get_or (set s.files f none) i none)) same
                (subst HasPath (sym none_here) tt)
          | no other ↦ subst HasPath (sym (get_or-set_ne s.files f g none none other)) (k.paths g)
        ];
        held = λ g. elim (ℕ_discrete f g) [
          | yes same ↦
              let once : times f fds ≡ 0 =
                omega (arith, times-once f fds, k.held f, allocated_le (get_or s.files f none)) in
              subst (λ i. times i fds ≡ allocated (get_or (set s.files f none) i none)) same
                (once ∙ ap allocated (sym none_here))
          | no other ↦
              sym (times-more f g fds other)
              ∙ k.held g
              ∙ ap allocated (sym (get_or-set_ne s.files f g none none other))
        ];
      }

  -- A new file comes with its pointer.
  pub fid_create-Keeps :
      (s : Disk H) (fds : List ℕ) (path : List ℕ) (uid : ℕ)
      → Keeps fds s
      → ends path ≡ true
      → let r = fid_create s path uid in Keeps (r.0 ∷ fds) r.1
  fid_create-Keeps s fds path uid k p =
      let file : FsFile = record {
        uid = uid;
        path = path;
        is_opened = false;
        is_dir = false;
        u = 0;
      } in
      let new = new-some s.files (some file) in
      let n = length s.files in
      record {
        root = k.root;
        paths = λ g. elim (ℕ_discrete n g) [
          | yes same ↦
              subst (λ i. HasPath (get_or (s.files ++ (some file ∷ [])) i none)) same
                (subst HasPath (sym new) p)
          | no other ↦ subst HasPath (sym (new-other s.files (some file) g other)) (k.paths g)
        ];
        held = λ g. elim (ℕ_discrete n g) [
          | yes same ↦
              let fresh : times n fds ≡ 0 = k.held n ∙ ap allocated (past-none s.files) in
              subst
                (λ i. times i (n ∷ fds) ≡ allocated (get_or (s.files ++ (some file ∷ [])) i none))
                same (times-once n fds ∙ ap (λ t. 1 + t) fresh ∙ ap allocated (sym new))
          | no other ↦
              times-more n g fds other
              ∙ k.held g
              ∙ ap allocated (sym (new-other s.files (some file) g other))
        ];
      }
