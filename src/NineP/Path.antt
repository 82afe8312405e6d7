-- ===== src/NineP/Path.antt =====
-- src/fs.c: the walk along a path. Of what `fs_walk` gives, the returned code and the file are used.
pub mod Ledger
use spike_virtio_devices.Prelude.{
  ℕ, zero, suc, ◌+◌, ◌≤◌, ◌<◌, ◌≡◌, refl, sym, ap, ◌∙◌, arith, Bool, true, false, Bool-cases, inl,
  inr, not, Option, none, some, List, [], ◌∷◌, ◌++◌, ◌==◌, slt, is_neg, if◌then◌else◌, length,
}
use spike_virtio_devices.Prelude.Outcome.{Outcome, done, fault, out_of_fuel, ◌>>=◌, Returns}
use spike_virtio_devices.Libc.{ends}
use spike_virtio_devices.NineP.Fs.{FsDevice}

-- '/'
abbrev pub slash : ℕ
slash = 47

-- `strchr(path, '/')`: the characters before the first slash and what is behind it, or `none`.
unfoldable pub split_path : List ℕ → Outcome (Option (List ℕ × List ℕ))
split_path [] = fault
split_path (c ∷ path) =
    let rest = split_path path in
    if c == slash
    then done (some ([], path))
    else if c == 0
    then done none
    else rest >>= λ r. (elim r [
      | none ↦ done none
      | some (name, behind) ↦ done (some (c ∷ name, behind))
    ])

-- `if (path[0] == '/') path++;`
unfoldable pub skip_slash : List ℕ → Outcome (List ℕ)
skip_slash [] = fault
skip_slash (c ∷ path) = if c == slash then done path else done (c ∷ path)

-- The file that is returned, or `none` for NULL; what `*pname` is set to; the file system.
pub record Walked (S D : Type 0) : Type 0 where
  pub file : Option D
  pub pname : Option (List ℕ)
  pub fs : S

module _ {S D : Type 0} (dev : FsDevice S D) where
  unfoldable pub fs_dup : S → D → D × S
  fs_dup s f = let (ret, f', qids, s') = dev.fs_walk s f [] in (f', s')

  -- The last name of a path is asked for, not walked.
  unfoldable pub stop_before : S → D → Bool → List ℕ → Walked S D
  stop_before s f is_first path =
      let (ret, f', qids, s') = dev.fs_walk s f [] in
      if is_first
      then record { file = if is_neg ret then none else some f'; pname = some path; fs = s' }
      else record { file = some f; pname = some path; fs = s }

  -- The walk of one name: the file system without the file walked from, unless that was the
  -- caller's.
  abbrev pub let_go : S → D → Bool → S
  let_go s f is_first = if is_first then s else dev.fs_delete s f

  -- The loop; `named` when `pname` is not null.
  unfoldable pub walk_loop : ℕ → Bool → S → D → Bool → List ℕ → Outcome (Walked S D)
  unfolding stop_before
  walk_loop zero named s f is_first path = out_of_fuel
  walk_loop (suc fuel) named s f is_first path = do
    p ← split_path path
    elim p [
      | none ↦
          let (ret, f1, qids, s1) = dev.fs_walk s f (path ∷ []) in
          let s2 = let_go s1 f is_first in
          if named
          then done (stop_before s f is_first path)
          else if not (slt 0 ret)
          then done (record { file = none; pname = none; fs = dev.fs_delete s2 f1 })
          else done (record { file = some f1; pname = none; fs = s2 })
      | some (name, behind) ↦
          let (ret, f1, qids, s1) = dev.fs_walk s f ((name ++ (0 ∷ [])) ∷ []) in
          let s2 = let_go s1 f is_first in
          let rest = walk_loop fuel named s2 f1 false behind in
          if not (slt 0 ret)
          then done (record { file = none; pname = none; fs = dev.fs_delete s2 f1 })
          else rest
    ]

  unfoldable pub fs_walk_path1 : ℕ → S → D → List ℕ → Bool → Outcome (Walked S D)
  unfolding walk_loop
  fs_walk_path1 fuel s f path named = skip_slash path >>= walk_loop fuel named s f true

  unfoldable pub fs_walk_path : ℕ → S → D → List ℕ → Outcome (Walked S D)
  unfolding fs_walk_path1
  fs_walk_path fuel s f path = fs_walk_path1 fuel s f path false
