-- ===== src/NineP/Table.antt =====
-- The fid table is a map from fids to files.
pub mod Open
use spike_virtio_devices.Prelude.{
  ℕ, ◌≡◌, refl, sym, ap, subst, ◌∙◌, arith, Bool, true, false, Option, none, some, List, [], ◌∷◌,
  ◌==◌, if◌then◌else◌, Bool-cases, inl, inr, ==_iff,
}
use spike_virtio_devices.NineP.{
  FidDesc, NineP, find_from, fid_find1, fid_find, list_del, set_fd, fid_delete, fid_set,
}

module _ {D : Type 0} where
  abbrev file_of : Option (FidDesc D) → Option D
  file_of none = none
  file_of (some f) = some f.fd

  file_of-if :
      (b : Bool) (x y : Option (FidDesc D))
      → file_of (if b then x else y) ≡ (if b then file_of x else file_of y)
  file_of-if true x y = refl
  file_of-if false x y = refl

  -- No fid is twice in the table.
  abbrev pub AreUnique : List (FidDesc D) → Type 0
  AreUnique [] = Unit
  AreUnique (f ∷ rest) = (find_from rest f.fid ≡ none) × AreUnique rest

  find_from-set_fd :
      (l : List (FidDesc D)) (fid k : ℕ) (fd : D) (g : FidDesc D)
      → find_from l fid ≡ some g
      → file_of (find_from (set_fd l fid fd) k)
        ≡ (if fid == k then some fd else file_of (find_from l k))
  unfolding find_from set_fd
  find_from-set_fd [] fid k fd g e = ground (arith, e)
  find_from-set_fd (f ∷ rest) fid k fd g e = elim (Bool-cases (f.fid == fid)) [
    | inl same ↦ rw same (elim (Bool-cases (f.fid == k)) [
      | inl here ↦ ground (arith, same, here)
      | inr there ↦ ground (arith, same, there)
    ])
    | inr other ↦
        let later : find_from rest fid ≡ some g = ground (arith, other, e) in
        let ih = find_from-set_fd rest fid k fd g later in
        rw other (elim (Bool-cases (f.fid == k)) [
          | inl here ↦ ground (arith, other, here)
          | inr there ↦ ground (arith, there, ih)
        ])
  ]

  find_from-list_del :
      (l : List (FidDesc D)) (fid k : ℕ)
      → AreUnique l
      → find_from (list_del l fid) k ≡ (if fid == k then none else find_from l k)
  unfolding find_from list_del
  find_from-list_del [] fid k u = ground arith
  find_from-list_del (f ∷ rest) fid k u = elim (Bool-cases (f.fid == fid)) [
    | inl same ↦
        let e : f.fid ≡ fid = (==_iff f.fid fid).0 same in
        rw same (elim (Bool-cases (fid == k)) [
          | inl here ↦
              let e' : k ≡ f.fid = sym ((==_iff fid k).0 here) ∙ sym e in
              rw here (ap (find_from rest) e' ∙ u.0)
          | inr there ↦
              let there' : (f.fid == k) ≡ false = ap (λ j. j == k) e ∙ there in rw (there, there')
        ])
    | inr other ↦
        let ih = find_from-list_del rest fid k u.1 in
        rw other (elim (Bool-cases (f.fid == k)) [
          | inl here ↦ ground (arith, other, here)
          | inr there ↦ ground (arith, there, ih)
        ])
  ]

  list_del-AreUnique : (l : List (FidDesc D)) (fid : ℕ) → AreUnique l → AreUnique (list_del l fid)
  unfolding list_del
  list_del-AreUnique [] fid u = tt
  list_del-AreUnique (f ∷ rest) fid u = elim (Bool-cases (f.fid == fid)) [
    | inl same ↦ rw same u.1
    | inr other ↦ rw other (
      ground (arith, find_from-list_del rest fid f.fid u.1, u.0),
      list_del-AreUnique rest fid u.1,
    )
  ]

  -- A fid that is not in the table is not there after a change of a file.
  find_from-set_fd-none :
      (l : List (FidDesc D)) (fid k : ℕ) (fd : D)
      → find_from l k ≡ none
      → find_from (set_fd l fid fd) k ≡ none
  unfolding find_from set_fd
  find_from-set_fd-none [] fid k fd e = refl
  find_from-set_fd-none (f ∷ rest) fid k fd e = elim (Bool-cases (f.fid == k)) [
    | inl here ↦ absurd (ground (arith, here, e))
    | inr there ↦
        let later : find_from rest k ≡ none = ground (arith, there, e) in
        let ih = find_from-set_fd-none rest fid k fd later in
        elim (Bool-cases (f.fid == fid)) [
          | inl same ↦ rw (same, there) later
          | inr other ↦ rw (other, there) ih
        ]
  ]

  set_fd-AreUnique :
      (l : List (FidDesc D)) (fid : ℕ) (fd : D) → AreUnique l → AreUnique (set_fd l fid fd)
  unfolding set_fd
  set_fd-AreUnique [] fid fd u = tt
  set_fd-AreUnique (f ∷ rest) fid fd u = elim (Bool-cases (f.fid == fid)) [
    | inl same ↦ rw same u
    | inr other ↦
        rw other (find_from-set_fd-none rest fid f.fid fd u.0, set_fd-AreUnique rest fid fd u.1)
  ]

  list_del-none : (l : List (FidDesc D)) (fid : ℕ) → find_from l fid ≡ none → list_del l fid ≡ l
  unfolding find_from list_del
  list_del-none [] fid e = refl
  list_del-none (f ∷ rest) fid e = elim (Bool-cases (f.fid == fid)) [
    | inl here ↦ absurd (ground (arith, here, e))
    | inr there ↦
        let later : find_from rest fid ≡ none = ground (arith, there, e) in
        rw there (ap (λ l. f ∷ l) (list_del-none rest fid later))
  ]

module _ {S D : Type 0} (fs_delete : S → D → S) where
  fid_find-find_from :
      (s : NineP S D) (k : ℕ) (r : Option (FidDesc D))
      → find_from s.fid_list k ≡ r
      → fid_find s k ≡ file_of r
  unfolding fid_find fid_find1
  fid_find-find_from s k none e = rw (fid_find, e)
  fid_find-find_from s k (some f) e = rw (fid_find, e)

  fid_find_file : (s : NineP S D) (k : ℕ) → fid_find s k ≡ file_of (find_from s.fid_list k)
  fid_find_file s k = fid_find-find_from s k (find_from s.fid_list k) refl

  -- The lists after `fid_set` and `fid_delete`, by what `fid_find1` found.
  fid_list-fid_set :
      (s : NineP S D) (fid : ℕ) (fd : D) (r : Option (FidDesc D))
      → find_from s.fid_list fid ≡ r
      → (fid_set fs_delete s fid fd).fid_list ≡ elim r [
        | none ↦ record { fid = fid; fd = fd } ∷ s.fid_list
        | some f ↦ set_fd s.fid_list fid fd
      ]
  unfolding fid_set fid_find1
  fid_list-fid_set s fid fd none e = rw (fid_set, e)
  fid_list-fid_set s fid fd (some f) e = rw (fid_set, e)

  fid_list-fid_delete :
      (s : NineP S D) (fid : ℕ) (r : Option (FidDesc D))
      → find_from s.fid_list fid ≡ r
      → (fid_delete fs_delete s fid).fid_list ≡ list_del s.fid_list fid
  unfolding fid_delete fid_find1
  fid_list-fid_delete s fid none e = rw (fid_delete, e) (sym (list_del-none s.fid_list fid e))
  fid_list-fid_delete s fid (some f) e = rw (fid_delete, e)

  set_lookup :
      (l : List (FidDesc D)) (fid k : ℕ) (fd : D) (r : Option (FidDesc D)) (t : List (FidDesc D))
      → find_from l fid ≡ r
      → AreUnique l
      → t ≡ elim r [ none ↦ record { fid = fid; fd = fd } ∷ l | some f ↦ set_fd l fid fd ]
      → AreUnique t
        × (file_of (find_from t k) ≡ (if fid == k then some fd else file_of (find_from l k)))
  unfolding find_from
  set_lookup l fid k fd none t e u at_t =
      subst
        (λ x.
          AreUnique x
          × (file_of (find_from x k) ≡ (if fid == k then some fd else file_of (find_from l k))))
        (sym at_t)
        ((e, u), file_of-if (fid == k) (some (record { fid = fid; fd = fd })) (find_from l k))
  set_lookup l fid k fd (some f) t e u at_t =
      subst
        (λ x.
          AreUnique x
          × (file_of (find_from x k) ≡ (if fid == k then some fd else file_of (find_from l k))))
        (sym at_t) (set_fd-AreUnique l fid fd u, find_from-set_fd l fid k fd f e)

  -- In a fid table without duplicates, after `fid_set` of a fid, known or new, `fid_find` gives
  -- the new file for that fid and what it gave before for every other, and no fid is there
  -- twice.
  pub fid_find-fid_set :
      (s : NineP S D) (fid k : ℕ) (fd : D)
      → AreUnique s.fid_list
      → AreUnique (fid_set fs_delete s fid fd).fid_list
        × (fid_find (fid_set fs_delete s fid fd) k ≡ (if fid == k then some fd else fid_find s k))
  fid_find-fid_set s fid k fd u =
      let r = find_from s.fid_list fid in
      let t = fid_set fs_delete s fid fd in
      let h =
        set_lookup s.fid_list fid k fd r t.fid_list refl u (fid_list-fid_set s fid fd r refl) in
      (
        h.0,
        fid_find_file t k
            ∙ h.1
            ∙ ap (λ x. if fid == k then some fd else x) (sym (fid_find_file s k)),
      )

  -- In a fid table without duplicates, after `fid_delete` of a fid, `fid_find` finds nothing
  -- for that fid and what it found before for every other, and no fid is there twice.
  pub fid_find-fid_delete :
      (s : NineP S D) (fid k : ℕ)
      → AreUnique s.fid_list
      → AreUnique (fid_delete fs_delete s fid).fid_list
        × (fid_find (fid_delete fs_delete s fid) k ≡ (if fid == k then none else fid_find s k))
  fid_find-fid_delete s fid k u =
      let r = find_from s.fid_list fid in
      let t = fid_delete fs_delete s fid in
      let same = fid_list-fid_delete s fid r refl in
      (
        subst AreUnique (sym same) (list_del-AreUnique s.fid_list fid u),
        fid_find_file t k
            ∙ ap (λ l. file_of (find_from l k)) same
            ∙ ap file_of (find_from-list_del s.fid_list fid k u)
            ∙ file_of-if (fid == k) none (find_from s.fid_list k)
            ∙ ap (λ x. if fid == k then none else x) (sym (fid_find_file s k)),
      )

  -- The message size is not the table's.
  abbrev SameSize : NineP S D → NineP S D → Type 0
  SameSize s t = t.msize ≡ s.msize

  size_if :
      (s t : NineP S D) (f : FidDesc D → NineP S D) (r : Option (FidDesc D))
      → SameSize s t
      → ((g : FidDesc D) → SameSize s (f g))
      → SameSize s (elim r [ none ↦ t | some g ↦ f g ])
  size_if s t f none h k = h
  size_if s t f (some g) h k = k g

  pub msize-fid_set : (s : NineP S D) (fid : ℕ) (fd : D) → SameSize s (fid_set fs_delete s fid fd)
  unfolding fid_set
  msize-fid_set s fid fd = size_if s _ _ (fid_find1 s fid) refl (λ g. refl)

  pub msize-fid_delete : (s : NineP S D) (fid : ℕ) → SameSize s (fid_delete fs_delete s fid)
  unfolding fid_delete
  msize-fid_delete s fid = size_if s _ _ (fid_find1 s fid) refl (λ g. refl)
