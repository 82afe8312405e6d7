-- ===== src/Disk/Plugin.antt =====
-- src/virtio-9p-disk.cc: `virtio9p_t`, which has a 9P device serve a directory of the host. A
-- `std::string` is the list of its characters.
use spike_virtio_devices.Prelude.{
  ℕ, Bool, true, false, ◌&&◌, Option, none, some, List, [], ◌∷◌, ◌==◌, if◌then◌else◌,
}
use spike_virtio_devices.Prelude.Outcome.{Outcome, done, ◌>>=◌}
use spike_virtio_devices.Virtio.Device.{Machine}
use spike_virtio_devices.NineP.{NineP}
use spike_virtio_devices.NineP.Strings.{c_string}
use spike_virtio_devices.NineP.Recv.{virtio_9p_init}
use spike_virtio_devices.Disk.{Disk}
use spike_virtio_devices.Disk.Calls.{Host, Stat}
use spike_virtio_devices.Disk.Device.{fs_disk_init}

abbrev pub String : Type 0
String = List ℕ

-- "path", "tag" and "/dev/root"
abbrev pub path_key : String
path_key = 112 ∷ 97 ∷ 116 ∷ 104 ∷ []

abbrev pub tag_key : String
tag_key = 116 ∷ 97 ∷ 103 ∷ []

abbrev pub dev_root : String
dev_root = 47 ∷ 100 ∷ 101 ∷ 118 ∷ 47 ∷ 114 ∷ 111 ∷ 111 ∷ 116 ∷ []

-- `==` of strings
unfoldable pub same : String → String → Bool
same [] [] = true
same [] (b ∷ t) = false
same (a ∷ s) [] = false
same (a ∷ s) (b ∷ t) = (a == b) && same s t

-- What stands before the first '=' and behind it.
unfoldable pub split_at_equals : String → Option (String × String)
split_at_equals [] = none
split_at_equals (c ∷ arg) =
    let rest = split_at_equals arg in
    if c == 61
    then some ([], arg)
    else elim rest [ none ↦ none | some (key, value) ↦ some (c ∷ key, value) ]

-- `argmap`, in which a key that stands twice has its first value.
abbrev pub ArgMap : Type 0
ArgMap = List (String × String)

unfoldable pub find : ArgMap → String → Option String
unfolding same
find [] key = none
find ((k, value) ∷ rest) key = let later = find rest key in if same k key then some value else later

-- The loop over the arguments.
unfoldable pub read_args : List String → ArgMap
unfolding split_at_equals
read_args [] = []
read_args (arg ∷ sargs) =
    let rest = read_args sargs in
    elim (split_at_equals arg) [ none ↦ rest | some entry ↦ entry ∷ rest ]

abbrev pub mount_tag : List String → String
mount_tag sargs = elim (find (read_args sargs) tag_key) [ none ↦ dev_root | some tag ↦ tag ]

module _ {R H : Type 0} where
  -- The device with its file system; without a file system the program exits.
  unfoldable pub serve_disk :
      Option (Disk H) → String → R → Outcome (Option (Machine R (NineP (Outcome (Disk H)) ℕ)))
  serve_disk none tag ram = done none
  serve_disk (some d) tag ram = virtio_9p_init (done d) (c_string tag) ram >>= λ m. done (some m)

  -- The constructor; `none` is `exit(1)`.
  unfoldable pub virtio9p :
      Host H
      → Stat
      → List String
      → H
      → R
      → Outcome (Option (Machine R (NineP (Outcome (Disk H)) ℕ)))
  unfolding find read_args serve_disk
  virtio9p os unset sargs h ram = elim (find (read_args sargs) path_key) [
    | none ↦ done none
    | some fname ↦ serve_disk (fs_disk_init os unset (c_string fname) h).0 (mount_tag sargs) ram
  ]
