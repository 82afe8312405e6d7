-- ===== src/Virtio/Chain/ReadOnly.antt =====
-- A copy from a queue and guest memory.
use spike_virtio_devices.Prelude.{
  ℕ, zero, suc, ◌+◌, ◌≡◌, refl, false, not, Option, none, some, List, ◌==◌, leb, length, slt, add32,
  sub32, add64, sext64,
}
use spike_virtio_devices.Prelude.Outcome.{
  done, fault, Ensures, Ensures->>=, Ensures-if, Ensures-trivial,
}
use spike_virtio_devices.Cutils.{min_int}
use spike_virtio_devices.Mmu.{Mmu}
use spike_virtio_devices.Virtio.Chain.{
  Desc, minus_one, write_flag, has_next, advance, get_desc, copy_piece, copy_loop, locate,
  memcpy_to_from_queue, memcpy_from_queue,
}

module _ {R : Type 0} (mmu : Mmu R) (m : R) where
  copy_piece-ram :
      (ram : R) (buf : List ℕ) (pos addr l : ℕ)
      → ram ≡ m
      → Ensures (λ r. r.0 ≡ m) (copy_piece mmu false ram buf pos addr l)
  unfolding copy_piece
  copy_piece-ram ram buf pos addr l e =
      Ensures-if (λ r. r.0 ≡ m) (not (slt 0 l)) _ _ e
        (Ensures-if (λ r. r.0 ≡ m) (not (leb (pos + l) (length buf))) fault _ tt e)

  copy_loop-ram :
      (f table flag : ℕ) (d : Desc) (pos offset count : ℕ) (ram : R) (buf : List ℕ)
      → ram ≡ m
      → Ensures (λ r. r.1 ≡ m) (copy_loop mmu f false table flag d pos offset count (ram, buf))
  unfolding copy_loop
  copy_loop-ram zero table flag d pos offset count ram buf e = tt
  copy_loop-ram (suc f) table flag d pos offset count ram buf e =
      let P : ℕ × R × List ℕ → Type 0 = λ r. r.1 ≡ m in
      let l = min_int count (sub32 d.len offset) in
      Ensures->>= (λ r. r.0 ≡ m) P _ _
        (copy_piece-ram ram buf pos (add64 d.addr (sext64 offset)) l e)
        (λ r kept. Ensures-if P (sub32 count l == 0) _ _ kept (
          Ensures->>= (λ _. Unit) P (advance pos l) _ (Ensures-trivial _)
            (λ pos' _.
              let d' = get_desc mmu r.0 table d.next in
              Ensures-if P (not (add32 offset l == d.len)) _ _
                (copy_loop-ram f table flag d pos' (add32 offset l) (sub32 count l) r.0 r.1 kept)
                (Ensures-if P (not (has_next d)) _ _ kept (
                  Ensures-if P (not (write_flag d' == flag)) _ _ kept
                    (copy_loop-ram f table flag d' pos' 0 (sub32 count l) r.0 r.1 kept))))))

  located-ram :
      (fuel table count : ℕ) (buf : List ℕ) (found : Option (Desc × ℕ))
      → Ensures {A = ℕ × R × List ℕ}
          (λ r. r.1 ≡ m)
          (elim found [
            | none ↦ done (minus_one, m, buf)
            | some (d, o) ↦ copy_loop mmu fuel false table 0 d 0 o count (m, buf)
          ])
  located-ram fuel table count buf none = refl
  located-ram fuel table count buf (some (d, o)) = copy_loop-ram fuel table 0 d 0 o count m buf refl

  -- Whatever a chain holds and however `memcpy_from_queue` ends, if it returns, guest memory is
  -- as it was.
  pub memcpy_from_queue-ram :
      (fuel table : ℕ) (buf : List ℕ) (desc_idx offset count : ℕ)
      → Ensures (λ r. r.1 ≡ m) (memcpy_from_queue mmu fuel m table buf desc_idx offset count)
  unfolding memcpy_from_queue memcpy_to_from_queue
  memcpy_from_queue-ram fuel table buf desc_idx offset count =
      let P : ℕ × R × List ℕ → Type 0 = λ r. r.1 ≡ m in
      Ensures-if P (count == 0) _ _ refl (
        Ensures->>= (λ _. Unit) P (locate mmu fuel false m table desc_idx offset) _
          (Ensures-trivial _) (λ found _. located-ram fuel table count buf found))
