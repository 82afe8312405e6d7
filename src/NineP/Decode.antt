-- ===== src/NineP/Decode.antt =====
-- What `unmarshall` reads from a chain that holds an encoded message.
use spike_virtio_devices.Prelude.{
  ℕ, suc, ◌+◌, ◌-◌, ◌^◌, ◌≤◌, ◌<◌, ◌≡◌, sym, ap, ◌∙◌, arith, true, false, some, List, [], ◌∷◌, ◌++◌,
  ltb, lt→ltb, length, length-append, get_or-append, add32, u8, u16, All,
}
use spike_virtio_devices.Libc.{text}
use spike_virtio_devices.Prelude.Outcome.{done}
use spike_virtio_devices.Cutils.{byte_at, get_le16, get_le32, get_le64}
use spike_virtio_devices.Mmu.{Mmu}
use spike_virtio_devices.Virtio.Chain.{Desc, get_desc}
use spike_virtio_devices.Virtio.Chain.Sets.{bytes16, bytes32, bytes64}
use spike_virtio_devices.Virtio.Chain.Stream.{total, IsReadable, stream_byte, Linked}
use spike_virtio_devices.Virtio.Chain.Fetch.{memcpy_from_queue-stream_byte}
use spike_virtio_devices.NineP.Message.{
  Fmt, fmt_b, fmt_h, fmt_w, fmt_d, fmt_s, fmt_q, Arg, Args, scratch, fetch, get_number, get_string,
  get_arg, unmarshall,
}
use spike_virtio_devices.NineP.Strings.{c_string}
use spike_virtio_devices.NineP.Encode.{encode_arg, encode}
use spike_virtio_devices.NineP.Values.{
  IsValue, AreValues, Starts, get_le16-bytes16, get_le32-bytes32, get_le64-bytes64, set-c_string,
}

module _ {R : Type 0} (mmu : Mmu R) (fuel : ℕ) (malloc : ℕ → List ℕ) (m : R) (table desc_idx : ℕ)
    (es : List Desc) (linked : Linked mmu m table (get_desc mmu m table desc_idx) es)
    (readable : All IsReadable (get_desc mmu m table desc_idx ∷ es))
    (small : total (get_desc mmu m table desc_idx ∷ es) < 2 ^ 31) (enough : length es < fuel) where
  abbrev chain : List Desc
  chain = get_desc mmu m table desc_idx ∷ es

  -- The chain holds `bytes` from `offset` on.
  abbrev pub HoldsAt : ℕ → List ℕ → Type 0
  HoldsAt offset bytes =
      (offset + length bytes ≤ total (get_desc mmu m table desc_idx ∷ es))
      × ((i : ℕ)
          → i < length bytes
          → stream_byte mmu m table (get_desc mmu m table desc_idx ∷ es) (offset + i)
            ≡ byte_at bytes i)

  HoldsAt-front : (offset : ℕ) (xs ys : List ℕ) → HoldsAt offset (xs ++ ys) → HoldsAt offset xs
  HoldsAt-front offset xs ys h = (
    omega (arith, h.0, length-append xs ys),
    λ i lt.
        let inside : ltb i (length xs) ≡ true = lt→ltb i (length xs) lt in
        h.1 i (omega (arith, length-append xs ys)) ∙ get_or-append xs ys i 0 ∙ rw inside,
  )

  HoldsAt-back :
      (offset : ℕ) (xs ys : List ℕ) → HoldsAt offset (xs ++ ys) → HoldsAt (offset + length xs) ys
  HoldsAt-back offset xs ys h = (
    omega (arith, h.0, length-append xs ys),
    λ i lt.
        let behind : ltb (length xs + i) (length xs) ≡ false = ground arith in
        let index : length xs + i - length xs ≡ i = omega arith in
        let at : offset + length xs + i ≡ offset + (length xs + i) = omega arith in
        ap (stream_byte mmu m table chain) at
        ∙ h.1 (length xs + i) (omega (arith, length-append xs ys))
        ∙ get_or-append xs ys (length xs + i) 0
        ∙ rw (behind, index),
  )

  -- A fetch of what the chain holds.
  fetch-HoldsAt :
      (buf : List ℕ) (offset : ℕ) (bytes : List ℕ)
      → HoldsAt offset bytes
      → length bytes ≤ length buf
      → (b : List ℕ) × (fetch mmu fuel malloc m table desc_idx buf offset (length bytes)
          ≡ done (some b))
        × (length b ≡ length buf)
        × Starts b bytes
  unfolding fetch
  fetch-HoldsAt buf offset bytes h room =
      let c =
        memcpy_from_queue-stream_byte mmu m table fuel desc_idx es buf offset (length bytes) linked
          readable small h.0 room enough in
      (
        c.0,
        rw c.1,
        c.2.size,
        λ i lt. ap (byte_at c.0) {x = i} {y = 0 + i} (omega arith) ∙ c.2.inside i lt ∙ h.1 i lt,
      )

  get_number-HoldsAt :
      (get : List ℕ → ℕ) (v offset : ℕ) (bytes : List ℕ)
      → ((b : List ℕ) → Starts b bytes → get b ≡ v)
      → HoldsAt offset bytes
      → length bytes ≤ 16
      → get_number mmu fuel malloc m table desc_idx get (length bytes) offset
        ≡ done (some (v, offset + length bytes))
  get_number-HoldsAt get v offset bytes reads h room =
      let f = fetch-HoldsAt scratch offset bytes h room in
      let end : add32 offset (length bytes) ≡ offset + length bytes = omega (arith, h.0) in
      rw (f.1, end, reads f.0 f.3)

  get_string-HoldsAt :
      (offset : ℕ) (chars : List ℕ)
      → ((n : ℕ) → length (malloc n) ≡ n)
      → HoldsAt offset chars
      → get_string mmu fuel malloc m table desc_idx (length chars) offset
        ≡ done (some (c_string chars, offset + length chars))
  unfolding get_string
  get_string-HoldsAt offset chars size h =
      let f =
        fetch-HoldsAt (malloc (length chars + 1)) offset chars h
          (omega (arith, size (length chars + 1))) in
      let end : add32 offset (length chars) ≡ offset + length chars = omega (arith, h.0) in
      let b_size : length f.0 ≡ length chars + 1 = f.2 ∙ size (length chars + 1) in
      let room : ltb (length chars) (length f.0) ≡ true = ground arith in
      rw (f.1, room, set-c_string f.0 chars b_size f.3, end)

  -- An argument that the chain holds is read, and the offset is behind it.
  get_arg-encode_arg :
      (c : Fmt) (x : Arg c) (offset : ℕ)
      → ((n : ℕ) → length (malloc n) ≡ n)
      → IsValue c x
      → HoldsAt offset (encode_arg c x)
      → get_arg mmu fuel malloc m table desc_idx c offset
        ≡ done (some (x, offset + length (encode_arg c x)))
  unfolding get_arg
  get_arg-encode_arg fmt_b val offset size v h =
      get_number-HoldsAt (λ b. byte_at b 0) val offset (u8 val ∷ [])
        (λ b k. k 0 (omega arith) ∙ omega arith) h (omega arith)
  get_arg-encode_arg fmt_h val offset size v h =
      get_number-HoldsAt (λ b. u16 (get_le16 b 0)) val offset (bytes16 (u16 val))
        (λ b k. omega (arith, get_le16-bytes16 (u16 val) b (omega arith) k)) h (omega arith)
  get_arg-encode_arg fmt_w val offset size v h =
      get_number-HoldsAt (λ b. get_le32 b 0) val offset (bytes32 val)
        (λ b k. get_le32-bytes32 val b v k) h (omega arith)
  get_arg-encode_arg fmt_d val offset size v h =
      get_number-HoldsAt (λ b. get_le64 b 0) val offset (bytes64 val)
        (λ b k. get_le64-bytes64 val b v k) h (omega arith)
  get_arg-encode_arg fmt_s str offset size v h =
      let chars = text str in
      let n = length chars in
      let front = HoldsAt-front offset (bytes16 (u16 n)) chars h in
      let back = HoldsAt-back offset (bytes16 (u16 n)) chars h in
      let len =
        get_number-HoldsAt (λ b. get_le16 b 0) n offset (bytes16 (u16 n))
          (λ b k. get_le16-bytes16 (u16 n) b (omega arith) k ∙ omega (arith, v.1)) front
          (omega arith) in
      let end : offset + 2 + n ≡ offset + suc (suc n) = omega arith in
      rw (len, get_string-HoldsAt (offset + 2) chars size back, end)
        (ap (λ s. done (some (s, offset + suc (suc n)))) (sym v.0))
  get_arg-encode_arg fmt_q qid offset size v h = absurd v

  -- Where a chain of readable buffers of fewer than 2^31 bytes holds the encoding of some
  -- arguments, numbers that fit their places and strings of at most 65535 characters without a
  -- null, `unmarshall` with fuel for its descriptors gives those arguments, and the offset
  -- behind them, wherever the borders between the buffers lie.
  pub unmarshall-encode :
      (fmt : List Fmt) (args : Args fmt) (offset : ℕ)
      → ((n : ℕ) → length (malloc n) ≡ n)
      → AreValues fmt args
      → HoldsAt offset (encode fmt args)
      → unmarshall mmu fuel malloc m table desc_idx fmt offset
        ≡ done (some (args, offset + length (encode fmt args)))
  unfolding unmarshall
  unmarshall-encode [] args offset size v h = let end : offset + 0 ≡ offset = omega arith in rw end
  unmarshall-encode (c ∷ fmt) (x, args) offset size v h =
      let a = encode_arg c x in
      let rest = encode fmt args in
      let first = get_arg-encode_arg c x offset size v.0 (HoldsAt-front offset a rest h) in
      let others =
        unmarshall-encode fmt args (offset + length a) size v.1 (HoldsAt-back offset a rest h) in
      let end : offset + length a + length rest ≡ offset + length (a ++ rest) =
        omega (arith, length-append a rest) in
      rw (first, others, end)
