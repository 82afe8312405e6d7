-- ===== src/NineP.antt =====
-- src/virtio.cc: the state of the 9P device and its fid table. A `struct list_head` of src/list.h with what hangs
-- on it is a list, front first. `D` is an `FSFile *`, and `fs_delete` of the `FSDevice` is an
-- argument; freed descriptors are gone.
pub mod Table
pub mod Fs
pub mod Message
pub mod Encode
pub mod Values
pub mod Decode
pub mod Reply
pub mod Files
pub mod Attrs
pub mod Data
pub mod Recv
pub mod Kept
pub mod Refused
pub mod Valid
pub mod Reach
pub mod Strings
pub mod Init
pub mod Path
mod Tests
use spike_virtio_devices.Prelude.{ℕ, Bool, Option, none, some, List, [], ◌∷◌, ◌==◌, if◌then◌else◌}

pub record FidDesc (D : Type 0) : Type 0 where
  pub fid : ℕ  -- uint32_t
  pub fd : D

-- What `VIRTIO9PDevice` adds to `VIRTIODevice`.
pub record NineP (S D : Type 0) : Type 0 where
  pub fs : S
  pub msize : ℕ  -- uint32_t
  pub fid_list : List (FidDesc D)
  pub req_in_progress : Bool

module _ {D : Type 0} where
  -- The loop of `fid_find1`.
  unfoldable pub find_from : List (FidDesc D) → ℕ → Option (FidDesc D)
  find_from [] fid = none
  find_from (f ∷ rest) fid =
      let later = find_from rest fid in if f.fid == fid then some f else later

  -- `list_del` of the descriptor that `fid_find1` gives, the first with its fid.
  unfoldable pub list_del : List (FidDesc D) → ℕ → List (FidDesc D)
  list_del [] fid = []
  list_del (f ∷ rest) fid =
      let later = list_del rest fid in if f.fid == fid then rest else f ∷ later

  -- `f->fd = fd` for that descriptor.
  unfoldable pub set_fd : List (FidDesc D) → ℕ → D → List (FidDesc D)
  set_fd [] fid fd = []
  set_fd (f ∷ rest) fid fd =
      let later = set_fd rest fid fd in
      if f.fid == fid then record f { fd = fd } ∷ rest else f ∷ later

module _ {S D : Type 0} where
  unfoldable pub fid_find1 : NineP S D → ℕ → Option (FidDesc D)
  unfolding find_from
  fid_find1 s fid = find_from s.fid_list fid

  unfoldable pub fid_find : NineP S D → ℕ → Option D
  unfolding fid_find1
  fid_find s fid = elim (fid_find1 s fid) [ none ↦ none | some f ↦ some f.fd ]

  module _ (fs_delete : S → D → S) where
    unfoldable pub fid_delete : NineP S D → ℕ → NineP S D
    unfolding fid_find1 list_del
    fid_delete s fid = elim (fid_find1 s fid) [
      | none ↦ s
      | some f ↦ record s { fs = fs_delete s.fs f.fd; fid_list = list_del s.fid_list fid }
    ]

    unfoldable pub fid_set : NineP S D → ℕ → D → NineP S D
    unfolding fid_find1 set_fd
    fid_set s fid fd = elim (fid_find1 s fid) [
      | none ↦ record s { fid_list = record { fid = fid; fd = fd } ∷ s.fid_list }
      | some f ↦ record s { fs = fs_delete s.fs f.fd; fid_list = set_fd s.fid_list fid fd }
    ]
