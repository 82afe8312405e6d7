-- ===== src/NineP/Tests/Messages.antt =====
-- Messages of the 9P device at concrete inputs.
use spike_virtio_devices.Prelude.{
  ℕ, zero, suc, ◌+◌, ◌-◌, ◌*◌, ◌<◌, ◌≡◌, refl, ap, subst, sym, ◌∙◌, arith, some, List, [], ◌∷◌, ltb,
  if◌then◌else◌, get_or, replicate, add64, length-replicate, All,
}
use spike_virtio_devices.Prelude.Outcome.{done, Ensures}
use spike_virtio_devices.Cutils.{get_le16, get_le32, get_le64}
use spike_virtio_devices.Mmu.Sample.{Bytes, sample}
use spike_virtio_devices.Virtio.Copy.{load_bytes}
use spike_virtio_devices.Virtio.Copy.Flat.{virtio_memcpy_from_ram_flat}
use spike_virtio_devices.Virtio.Chain.{Desc, blit, get_desc, memcpy_from_queue}
use spike_virtio_devices.Virtio.Chain.Stream.{total, IsReadable, stream_byte, Linked}
use spike_virtio_devices.Virtio.Chain.Fetch.{Copies, memcpy_from_queue-stream_byte}
use spike_virtio_devices.Virtio.Chain.ReadOnly.{memcpy_from_queue-ram}
use spike_virtio_devices.NineP.Message.{fmt_w, fmt_s, Args, marshall, unmarshall}
use spike_virtio_devices.NineP.Encode.{encode, marshall-encode}
use spike_virtio_devices.NineP.Decode.{HoldsAt, unmarshall-encode}

-- A word and a string, "ab".
abbrev word_and_name : Args (fmt_w ∷ fmt_s ∷ [])
word_and_name = (5, (97 ∷ 98 ∷ 0 ∷ [], tt))

marshall-encode_example :
    marshall (replicate 12 9) 1 10 (fmt_w ∷ fmt_s ∷ []) word_and_name
    ≡ done (8, blit (replicate 12 9) 1 (encode (fmt_w ∷ fmt_s ∷ []) word_and_name))
marshall-encode_example =
    marshall-encode (replicate 12 9) 1 10 (fmt_w ∷ fmt_s ∷ []) word_and_name
      (tt, ((refl, omega arith), tt)) (omega arith)

-- Two descriptors, of three bytes at 64 and of five at 128, which hold 5 as a word, 2 as a half
-- word, and "ab".
abbrev descs : List ℕ
descs =
    64 ∷ 0 ∷ 0 ∷ 0 ∷ 0 ∷ 0 ∷ 0 ∷ 0 ∷ 3 ∷ 0 ∷ 0 ∷ 0 ∷ 1 ∷ 0 ∷ 1 ∷ 0 ∷ 128 ∷ 0 ∷ 0 ∷ 0 ∷ 0 ∷ 0 ∷ 0 ∷ 0
    ∷ 5 ∷ []

abbrev ram : Bytes
ram a =
    if ltb a 32
    then get_or descs a 0
    else if ltb a 128
    then get_or (5 ∷ 0 ∷ 0 ∷ []) (a - 64) 0
    else get_or (0 ∷ 2 ∷ 0 ∷ 97 ∷ 98 ∷ []) (a - 128) 0

abbrev first : Desc
first = record { addr = 64; len = 3; flags = 1; next = 1 }

abbrev second : Desc
second = record { addr = 128; len = 5; flags = 0; next = 0 }

first_read : get_desc sample ram 0 0 ≡ first
unfolding get_desc load_bytes get_le16 get_le32 get_le64
first_read = rw (virtio_memcpy_from_ram_flat sample ram (add64 0 (0 * 16)) 16 (omega arith))

second_read : get_desc sample ram 0 1 ≡ second
unfolding get_desc load_bytes get_le16 get_le32 get_le64
second_read = rw (virtio_memcpy_from_ram_flat sample ram (add64 0 (1 * 16)) 16 (omega arith))

linked : Linked sample ram 0 (get_desc sample ram 0 0) (second ∷ [])
linked = subst (λ d. Linked sample ram 0 d (second ∷ [])) (sym first_read) (refl, second_read, tt)

readable : All IsReadable (get_desc sample ram 0 0 ∷ second ∷ [])
readable = subst (λ d. All IsReadable (d ∷ second ∷ [])) (sym first_read) (refl, (refl, tt))

sum : total (get_desc sample ram 0 0 ∷ second ∷ []) ≡ 8
sum = ap (λ d. total (d ∷ second ∷ [])) first_read

abbrev bytes : List ℕ
bytes = encode (fmt_w ∷ fmt_s ∷ []) word_and_name

bytes_held : (i : ℕ) → i < 8 → stream_byte sample ram 0 (first ∷ second ∷ []) i ≡ get_or bytes i 0
bytes_held zero h = refl
bytes_held (suc zero) h = refl
bytes_held (suc (suc zero)) h = refl
bytes_held (suc (suc (suc zero))) h = refl
bytes_held (suc (suc (suc (suc zero)))) h = refl
bytes_held (suc (suc (suc (suc (suc zero))))) h = refl
bytes_held (suc (suc (suc (suc (suc (suc zero)))))) h = refl
bytes_held (suc (suc (suc (suc (suc (suc (suc zero))))))) h = refl
bytes_held (suc (suc (suc (suc (suc (suc (suc (suc i)))))))) h = absurd (omega arith)

memcpy_from_queue-stream_byte_example :
    Copies sample ram 0
      (λ i. stream_byte sample ram 0 (get_desc sample ram 0 0 ∷ second ∷ []) (1 + i))
      (replicate 16 0)
      0
      6
      (memcpy_from_queue sample 2 ram 0 (replicate 16 0) 0 1 6)
memcpy_from_queue-stream_byte_example =
    memcpy_from_queue-stream_byte sample ram 0 2 0 (second ∷ []) (replicate 16 0) 1 6 linked
      readable (omega (arith, sum)) (omega (arith, sum)) (omega arith) (omega arith)

held :
    HoldsAt sample 2
      (λ n. replicate n 0)
      ram
      0
      0
      (second ∷ [])
      linked
      readable
      (omega (arith, sum))
      (omega arith)
      0
      bytes
held = (
  omega (arith, sum),
  λ i h.
      ap (λ d. stream_byte sample ram 0 (d ∷ second ∷ []) (0 + i)) first_read
      ∙ ap (stream_byte sample ram 0 (first ∷ second ∷ [])) {x = 0 + i} {y = i} (omega arith)
      ∙ bytes_held i h,
)

unmarshall-encode_example :
    unmarshall sample 2 (λ n. replicate n 0) ram 0 0 (fmt_w ∷ fmt_s ∷ []) 0
    ≡ done (some (word_and_name, 8))
unmarshall-encode_example =
    unmarshall-encode sample 2 (λ n. replicate n 0) ram 0 0 (second ∷ []) linked readable
      (omega (arith, sum)) (omega arith) (fmt_w ∷ fmt_s ∷ []) word_and_name 0
      (λ n. length-replicate n 0) (omega arith, ((refl, omega arith), tt)) held

memcpy_from_queue-ram_example :
    Ensures (λ r. r.1 ≡ ram) (memcpy_from_queue sample 2 ram 0 (replicate 16 0) 0 1 6)
memcpy_from_queue-ram_example = memcpy_from_queue-ram sample ram 2 0 (replicate 16 0) 0 1 6
