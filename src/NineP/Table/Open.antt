-- ===== src/NineP/Table/Open.antt =====
-- The files that are open in the fid table, as the file system sees them.
use spike_virtio_devices.Prelude.{
  ℕ, ◌≡◌, refl, sym, ap, subst, arith, Option, none, some, List, [], ◌∷◌, ◌++◌, ◌==◌, if◌then◌else◌,
  Bool-cases, inl, inr,
}
use spike_virtio_devices.NineP.{
  FidDesc, NineP, find_from, fid_find1, fid_find, list_del, set_fd, fid_delete, fid_set,
}
use spike_virtio_devices.NineP.Fs.{FsDevice}
use spike_virtio_devices.NineP.Fs.Laws.{Has, IsFileSystem}

abbrev pub open_fds : {D : Type 0} → List (FidDesc D) → List D
open_fds [] = []
open_fds (f ∷ rest) = f.fd ∷ open_fds rest

module _ {D : Type 0} where
  -- The files around the one with a fid, and what becomes of them.
  record Around (l : List (FidDesc D)) (fid : ℕ) (g : FidDesc D) : Type 0 where
    before : List D
    behind : List D
    all : open_fds l ≡ before ++ (g.fd ∷ behind)
    removed : open_fds (list_del l fid) ≡ before ++ behind
    replaced : (fd : D) → open_fds (set_fd l fid fd) ≡ before ++ (fd ∷ behind)

  find_from-Around :
      (l : List (FidDesc D)) (fid : ℕ) (g : FidDesc D) → find_from l fid ≡ some g → Around l fid g
  unfolding find_from list_del set_fd
  find_from-Around [] fid g e = absurd (ground (arith, e))
  find_from-Around (f ∷ rest) fid g e = elim (Bool-cases (f.fid == fid)) [
    | inl here ↦
        let same : f ≡ g =
          ap (λ o. elim o [ none ↦ f | some h ↦ h ])
            (subst (λ b. (if b then some f else find_from rest fid) ≡ some g) here e) in
        record {
          before = [];
          behind = open_fds rest;
          all = ap (λ h. h.fd ∷ open_fds rest) same;
          removed = rw here;
          replaced = λ fd. rw here;
        }
    | inr there ↦
        let later : find_from rest fid ≡ some g = ground (arith, there, e) in
        let r = find_from-Around rest fid g later in
        record {
          before = f.fd ∷ r.before;
          behind = r.behind;
          all = ap (◌∷◌ f.fd) r.all;
          removed = rw there (ap (◌∷◌ f.fd) r.removed);
          replaced = λ fd. rw there (ap (◌∷◌ f.fd) (r.replaced fd));
        }
  ]

  Has-append : (f : D) (xs ys : List D) → Has f (xs ++ (f ∷ ys))
  Has-append f [] ys = inl refl
  Has-append f (x ∷ xs) ys = inr (Has-append f xs ys)

  found_file :
      (l : List (FidDesc D)) (fid : ℕ) (f : D) (r : Option (FidDesc D))
      → find_from l fid ≡ r
      → elim r [ none ↦ none | some g ↦ some g.fd ] ≡ some f
      → Has f (open_fds l)
  found_file l fid f none e k = absurd (ground (arith, k))
  found_file l fid f (some g) e k =
      let at = find_from-Around l fid g e in
      let same : g.fd ≡ f = ap (λ o. elim o [ none ↦ f | some h ↦ h ]) k in
      subst (Has f) (sym at.all) (
        subst (λ x. Has f (at.before ++ (x ∷ at.behind))) (sym same)
          (Has-append f at.before at.behind))

module _ {S D : Type 0} where
  pub fid_find-Has :
      (s : NineP S D) (fid : ℕ) (f : D) → fid_find s fid ≡ some f → Has f (open_fds s.fid_list)
  unfolding fid_find fid_find1
  fid_find-Has s fid f e = found_file s.fid_list fid f (find_from s.fid_list fid) refl e

module _ {S D : Type 0} (dev : FsDevice S D) (Inv : S → List D → Type 0)
    (laws : IsFileSystem dev Inv) where
  set_found :
      (s : NineP S D) (fid : ℕ) (fd : D) (r : Option (FidDesc D))
      → find_from s.fid_list fid ≡ r
      → Inv s.fs (fd ∷ open_fds s.fid_list)
      → let t = fid_set dev.fs_delete s fid fd in Inv t.fs (open_fds t.fid_list)
  unfolding fid_set fid_find1
  set_found s fid fd none e h = rw (fid_set, e) h
  set_found s fid fd (some g) e h =
      let at = find_from-Around s.fid_list fid g e in
      let front =
        laws.to_front s.fs g.fd (fd ∷ at.before) at.behind
          (subst (λ fs. Inv s.fs (fd ∷ fs)) at.all h) in
      rw (fid_set, e)
        (subst (Inv (dev.fs_delete s.fs g.fd)) (sym (at.replaced fd))
          (laws.from_front _ fd at.before at.behind (laws.deleted s.fs g.fd _ front)))

  delete_found :
      (s : NineP S D) (fid : ℕ) (r : Option (FidDesc D))
      → find_from s.fid_list fid ≡ r
      → Inv s.fs (open_fds s.fid_list)
      → let t = fid_delete dev.fs_delete s fid in Inv t.fs (open_fds t.fid_list)
  unfolding fid_delete fid_find1
  delete_found s fid none e h = rw (fid_delete, e) h
  delete_found s fid (some g) e h =
      let at = find_from-Around s.fid_list fid g e in
      let front = laws.to_front s.fs g.fd at.before at.behind (subst (Inv s.fs) at.all h) in
      rw (fid_delete, e)
        (subst (Inv (dev.fs_delete s.fs g.fd)) (sym at.removed) (laws.deleted s.fs g.fd _ front))

  pub fid_set-Inv :
      (s : NineP S D) (fid : ℕ) (fd : D)
      → Inv s.fs (fd ∷ open_fds s.fid_list)
      → let t = fid_set dev.fs_delete s fid fd in Inv t.fs (open_fds t.fid_list)
  unfolding fid_set fid_find1
  fid_set-Inv s fid fd h = set_found s fid fd (find_from s.fid_list fid) refl h

  pub fid_delete-Inv :
      (s : NineP S D) (fid : ℕ)
      → Inv s.fs (open_fds s.fid_list)
      → let t = fid_delete dev.fs_delete s fid in Inv t.fs (open_fds t.fid_list)
  unfolding fid_delete fid_find1
  fid_delete-Inv s fid h = delete_found s fid (find_from s.fid_list fid) refl h
