-- ===== src/Buffer/Data.antt =====
-- Data in and out of a buffer, and pointers to buffers (lib/strela.c, `strela_buffer_set_data`,
-- `strela_buffer_get_data`, `strela_buffer_to_ptr`, `strela_buffer_from_ptr`).
use strela_pynq.Base.{
  ℕ, ◌+◌, ◌-◌, ◌*◌, ◌/◌, ◌%◌, ◌^◌, ◌≤◌, ◌<◌, ◌≡◌, ◌⊎◌, refl, sym, ◌∙◌, arith, true, leb, ltb, add64,
  mul64, returned, ◌>>=◌, Returns, ends,
}
use strela_pynq.Memory.{Ptr, Bytes, move_bytes, move_inside, move_outside}
use strela_pynq.Uapi.{word_size}
use strela_pynq.FreeList.{header_size}
use strela_pynq.Device.{Device, tensor_memory_size, strela_dev_ok}
use strela_pynq.Buffer.{
  Buffer, total_words, ptr_to_buffer_offset, strela_buffer_to_ptr, strela_buffer_from_ptr,
  strela_buffer_set_data, strela_buffer_get_data,
}

-- A buffer that lies in the tensors' memory of a device that is fit for use.
pub record IsStored (dev : Device) (b : Buffer) : Type 0 where
  pub fit : strela_dev_ok dev ≡ true
  pub valid : b.valid ≡ true
  pub inside : b.offset_words_from_base + b.size_words ≤ total_words
  pub ends : dev.tensors_bo_map + tensor_memory_size < 2 ^ 64

-- The address of a buffer, and its bytes.
abbrev pub address : Device → Buffer → ℕ
address dev b = dev.tensors_bo_map + b.offset_words_from_base * word_size

abbrev pub bytes_of : Buffer → ℕ
bytes_of b = b.size_words * word_size

to_ptr-address :
    (dev : Device) (b : Buffer)
    → IsStored dev b
    → strela_buffer_to_ptr dev b ≡ returned (address dev b)
unfolding strela_buffer_to_ptr
to_ptr-address dev b s =
    let at : add64 dev.tensors_bo_map (mul64 b.offset_words_from_base word_size) ≡ address dev b =
      omega (arith, s.inside, s.ends) in
    simp (s.valid, s.fit, at) refl

set_data-move :
    (dev : Device) (m : Bytes) (b : Buffer) (p : Ptr)
    → IsStored dev b
    → strela_buffer_set_data dev m b p ≡ returned (dev, move_bytes m (address dev b) p (bytes_of b))
unfolding strela_buffer_set_data
set_data-move dev m b p s =
    let whole : mul64 b.size_words word_size ≡ bytes_of b = omega (arith, s.inside) in
    simp (s.fit, s.valid, to_ptr-address dev b s, whole) refl

get_data-move :
    (dev : Device) (m : Bytes) (b : Buffer) (p : Ptr)
    → IsStored dev b
    → strela_buffer_get_data dev m b p ≡ returned (dev, move_bytes m p (address dev b) (bytes_of b))
unfolding strela_buffer_get_data
get_data-move dev m b p s =
    let whole : mul64 b.size_words word_size ≡ bytes_of b = omega (arith, s.inside) in
    simp (s.fit, s.valid, to_ptr-address dev b s, whole) refl

-- What is got behind what was set: the bytes of `p` stand at `q`, and no byte outside the buffer and
-- the target changes.
pub record Copied (d : Device) (m : Bytes) (b : Buffer) (p q : Ptr) (r : Device × Bytes)
    : Type 0 where
  pub dev : r.0 ≡ d
  pub same : (i : ℕ) → i < bytes_of b → r.1 (q + i) ≡ m (p + i)
  pub kept :
      (x : ℕ)
      → (x < address d b) ⊎ (address d b + bytes_of b ≤ x)
      → (x < q) ⊎ (q + bytes_of b ≤ x)
      → r.1 x ≡ m x

-- memcpy takes ranges that lie apart.
abbrev pub Apart : Device → Buffer → Ptr → Type 0
Apart dev b p = (p + bytes_of b ≤ address dev b) ⊎ (address dev b + bytes_of b ≤ p)

-- A buffer in the tensors' memory of a device fit for use, whose data is set from `p` and then got
-- to `q`, ranges apart from the buffer's: the bytes at `q` are those that stood at `p`, no byte outside
-- the buffer and the target changes, and the device is as it was.
pub strela_buffer_get_data-set_data :
    (dev : Device) (m : Bytes) (b : Buffer) (p q : Ptr)
    → IsStored dev b
    → Apart dev b p
    → Apart dev b q
    → Returns
        (Copied dev m b p q)
        (strela_buffer_set_data dev m b p >>= λ (dev', m'). strela_buffer_get_data dev' m' b q)
strela_buffer_get_data-set_data dev m b p q s apart apart' =
    let set = move_bytes m (address dev b) p (bytes_of b) in
    simp (set_data-move dev m b p s, get_data-move dev set b q s)
      (ends (record {
        dev = refl;
        same = λ i lt.
            move_inside set q (address dev b) (bytes_of b) i lt
            ∙ move_inside m (address dev b) p (bytes_of b) i lt;
        kept = λ x out out'.
            move_outside set q (address dev b) (bytes_of b) x out'
            ∙ move_outside m (address dev b) p (bytes_of b) x out;
      }))

-- The pointer of a buffer, whose header tells its bytes, leads back to the buffer.
pub strela_buffer_from_ptr-to_ptr :
    (dev : Device) (b : Buffer)
    → IsStored dev b
    → 0 < b.size_words
    → dev.mem (address dev b - header_size) ≡ bytes_of b
    → (strela_buffer_to_ptr dev b >>= λ ptr. strela_buffer_from_ptr dev ptr) ≡ returned b
unfolding strela_buffer_from_ptr
strela_buffer_from_ptr-to_ptr dev b s some told =
    let whole : bytes_of b % word_size ≡ 0 = omega arith in
    let size : bytes_of b / word_size ≡ b.size_words = omega arith in
    let offset : ptr_to_buffer_offset dev (address dev b) ≡ b.offset_words_from_base =
      omega (arith, s.inside, s.ends) in
    let from : leb dev.tensors_bo_map (address dev b) ≡ true = ground arith in
    let to : ltb (address dev b) (add64 dev.tensors_bo_map tensor_memory_size) ≡ true =
      ground (arith, s.inside, s.ends, some) in
    simp (to_ptr-address dev b s, s.fit, from, to, told, whole, size, offset)
      (λ i. returned (record b { valid = sym s.valid i }))
