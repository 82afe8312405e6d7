-- ===== src/Virtio/Copy/Back.antt =====
-- Copies to guest memory: what is written where, what stays, and reading it back.
use spike_virtio_devices.Prelude.{
  ℕ, zero, suc, ◌+◌, ◌-◌, ◌^◌, ◌≤◌, ◌<◌, ◌≡◌, ◌≢◌, refl, sym, ap, ◌∙◌, arith, List, [], ◌∷◌, length,
  get_or, drop, sub32, add64, u8,
}
use spike_virtio_devices.Mmu.{Mmu, IsMmu}
use spike_virtio_devices.Virtio.Copy.{
  page_part, store_bytes, store_pages, memcpy_to_ram_intrapage, virtio_memcpy_to_ram,
}
use spike_virtio_devices.Virtio.Copy.Flat.{page_part_bounds, slt-pos, sub32-exact}
use native.Mathlib.Nat.{zero-add, add-zero, suc-add}

module _ {R : Type 0} (mmu : Mmu R) where
  store_bytes-nil : (n l : ℕ) (m : R) (addr : ℕ) → store_bytes mmu n l [] m addr ≡ m
  unfolding store_bytes
  store_bytes-nil zero l m addr = refl
  store_bytes-nil (suc n) l m addr = refl

  store_bytes-add :
      (a b l : ℕ) (buf : List ℕ) (m : R) (addr : ℕ)
      → store_bytes mmu (a + b) l buf m addr
        ≡ store_bytes mmu b (l + a) (drop a buf) (store_bytes mmu a l buf m addr) addr
  unfolding store_bytes
  store_bytes-add zero b l buf m addr = ground (arith, zero-add b, add-zero l)
  store_bytes-add (suc a) b l [] m addr =
      store_bytes-nil (suc a + b) l m addr ∙ sym (store_bytes-nil b (l + suc a) m addr)
  store_bytes-add (suc a) b l (x ∷ buf) m addr =
      let t = mmu.store8 m (add64 addr l) x in
      rw (suc-add a b) (
        store_bytes-add a b (l + 1) buf t addr
        ∙ ap (λ k. store_bytes mmu b k (drop a buf) (store_bytes mmu a (l + 1) buf t addr) addr)
            {y = l + suc a} (omega arith))

  store_bytes_shift :
      (n l k : ℕ) (buf : List ℕ) (m : R) (addr : ℕ)
      → store_bytes mmu n l buf m (add64 addr k) ≡ store_bytes mmu n (l + k) buf m addr
  unfolding store_bytes
  store_bytes_shift zero l k buf m addr = refl
  store_bytes_shift (suc n) l k [] m addr = refl
  store_bytes_shift (suc n) l k (x ∷ buf) m addr =
      store_bytes_shift n (l + 1) k buf (mmu.store8 m (add64 (add64 addr k) l) x) addr
      ∙ ap (λ j. store_bytes mmu n j buf (mmu.store8 m (add64 (add64 addr k) l) x) addr)
          {y = l + k + 1} (omega arith)
      ∙ ap (λ a. store_bytes mmu n (l + k + 1) buf (mmu.store8 m a x) addr) (omega arith)

  store_pages_flat :
      (f : ℕ) (m : R) (addr : ℕ) (buf : List ℕ) (count : ℕ)
      → count ≤ f
      → count < 2 ^ 31
      → store_pages mmu f m addr buf count ≡ store_bytes mmu count 0 buf m addr
  unfolding store_pages memcpy_to_ram_intrapage
  store_pages_flat zero m addr buf zero enough small = refl
  store_pages_flat zero m addr buf (suc n) enough small = absurd (omega arith)
  store_pages_flat (suc f) m addr buf zero enough small = refl
  store_pages_flat (suc f) m addr buf (suc n) enough small =
      let p = page_part addr (suc n) in
      let b = page_part_bounds addr (suc n) (omega arith) small in
      let t = store_bytes mmu p 0 buf m addr in
      let rest : store_pages mmu f t (add64 addr p) (drop p buf) (sub32 (suc n) p)
          ≡ store_bytes mmu (suc n - p) p (drop p buf) t addr =
        rw (sub32-exact (suc n) p b.1 (omega arith)) (
          store_pages_flat f t (add64 addr p) (drop p buf) (suc n - p) (omega arith) (omega arith)
          ∙ store_bytes_shift (suc n - p) 0 p (drop p buf) t addr
          ∙ ap (λ k. store_bytes mmu (suc n - p) k (drop p buf) t addr) (omega arith)) in
      rw (slt-pos (suc n) (omega arith) small) (
        rest
        ∙ ap (λ k. store_bytes mmu (suc n - p) k (drop p buf) t addr) (omega arith)
        ∙ sym (store_bytes-add p (suc n - p) 0 buf m addr)
        ∙ ap (λ k. store_bytes mmu k 0 buf m addr) {y = suc n} (omega arith))

  module _ (ok : IsMmu mmu) where
    load8-store_bytes_outside :
        (n l : ℕ) (buf : List ℕ) (m : R) (addr a : ℕ)
        → ((i : ℕ) → i < n → a ≢ add64 addr (l + i))
        → mmu.load8 (store_bytes mmu n l buf m addr) a ≡ mmu.load8 m a
    unfolding store_bytes
    load8-store_bytes_outside zero l buf m addr a out = refl
    load8-store_bytes_outside (suc n) l [] m addr a out = refl
    load8-store_bytes_outside (suc n) l (x ∷ buf) m addr a out =
        let t = mmu.store8 m (add64 addr l) x in
        load8-store_bytes_outside n (l + 1) buf t addr a (λ i h.
          λ e. out (suc i) (omega arith) (e ∙ ap (λ k. add64 addr k) {y = l + suc i} (omega arith)))
        ∙ ground (arith, ok.load8-store8 m (add64 addr l) x a, out 0)

    load8-store_bytes_inside :
        (n l i : ℕ) (buf : List ℕ) (m : R) (addr : ℕ)
        → i < n
        → n ≤ length buf
        → n < 2 ^ 32
        → mmu.load8 (store_bytes mmu n l buf m addr) (add64 addr (l + i)) ≡ u8 (get_or buf i 0)
    unfolding store_bytes
    load8-store_bytes_inside zero l i buf m addr h room small = absurd (omega arith)
    load8-store_bytes_inside (suc n) l i [] m addr h room small = absurd (omega arith)
    load8-store_bytes_inside (suc n) l zero (x ∷ buf) m addr h room small =
        let t = mmu.store8 m (add64 addr l) x in
        load8-store_bytes_outside n (l + 1) buf t addr (add64 addr (l + 0)) (λ j hj. omega arith)
        ∙ ground (arith, ok.load8-store8 m (add64 addr l) x (add64 addr (l + 0)))
    load8-store_bytes_inside (suc n) l (suc i) (x ∷ buf) m addr h room small =
        let t = mmu.store8 m (add64 addr l) x in
        ap (λ k. mmu.load8 (store_bytes mmu n (l + 1) buf t addr) (add64 addr k)) {y = l + 1 + i}
          (omega arith)
        ∙ load8-store_bytes_inside n (l + 1) i buf t addr (omega arith) (omega arith) (omega arith)

    -- Copying at most as many bytes as the buffer holds, fewer than 2^31, to guest memory,
    -- across all page borders: byte `i` of the buffer is then at the address of byte `i`, and
    -- every other address holds what it held.
    pub virtio_memcpy_to_ram_lem :
        (m : R) (addr : ℕ) (buf : List ℕ) (count : ℕ)
        → count < 2 ^ 31
        → count ≤ length buf
        → ((i : ℕ)
            → i < count
            → mmu.load8 (virtio_memcpy_to_ram mmu m addr buf count) (add64 addr i)
              ≡ u8 (get_or buf i 0))
          × ((a : ℕ)
              → ((i : ℕ) → i < count → a ≢ add64 addr i)
              → mmu.load8 (virtio_memcpy_to_ram mmu m addr buf count) a ≡ mmu.load8 m a)
    unfolding virtio_memcpy_to_ram
    virtio_memcpy_to_ram_lem m addr buf count small room =
        let flat = store_pages_flat count m addr buf count (omega arith) small in
        let t = store_bytes mmu count 0 buf m addr in
        (
          λ i h. rw flat (
              ap (λ k. mmu.load8 t (add64 addr k)) {y = 0 + i} (omega arith)
              ∙ load8-store_bytes_inside count 0 i buf m addr h room (omega arith)),
          λ a out. rw flat (
              load8-store_bytes_outside count 0 buf m addr a
                λ i h e. out i h (e ∙ ap (λ k. add64 addr k) (omega arith))),
        )
