-- ===== src/Memory.antt =====
-- The memory that the allocators keep their lists in: one 64-bit word at each address that is
-- read or written as a `size_t` or as a pointer. The allocators touch addresses that are multiples
-- of 8 only, so two different addresses never overlap.
use strela_pynq.Base.{
  true, refl, ◌-◌, ℕ, ◌+◌, ◌<◌, ◌≤◌, ◌≡◌, ◌≢◌, ◌⊎◌, ◌==◌, ◌&&◌, leb, ltb, if◌then◌else◌, arith,
}

abbrev pub Ptr : Type 0
Ptr = ℕ

abbrev pub null : Ptr
null = 0

abbrev pub Mem : Type 0
Mem = ℕ → ℕ

-- `*p = v`
unfoldable pub store : Mem → Ptr → ℕ → Mem
store m p v a = if a == p then v else m a

-- `memset(p, 0, n)`
unfoldable pub clear : Mem → Ptr → ℕ → Mem
clear m p n a = if leb p a && ltb a (p + n) then 0 else m a

-- Another memory, with a byte at each address, for data that is copied and cleared.
abbrev pub Bytes : Type 0
Bytes = ℕ → ℕ

-- `memmove(dst, src, n)`, and `memcpy` where the two do not overlap
unfoldable pub move_bytes : Bytes → (dst src : Ptr) (n : ℕ) → Bytes
move_bytes m dst src n a = if leb dst a && ltb a (dst + n) then m (src + (a - dst)) else m a

pub store_self : (m : Mem) (p v : ℕ) → store m p v p ≡ v
unfolding store
store_self m p v = ground arith

pub store_ne : (m : Mem) (p v a : ℕ) → a ≢ p → store m p v a ≡ m a
unfolding store
store_ne m p v a ne = ground arith

pub clear_inside : (m : Mem) (p n a : ℕ) → p ≤ a → a < p + n → clear m p n a ≡ 0
unfolding clear
clear_inside m p n a lo hi = ground arith

pub clear_outside : (m : Mem) (p n a : ℕ) → (a < p) ⊎ (p + n ≤ a) → clear m p n a ≡ m a
unfolding clear
clear_outside m p n a out = ground arith

pub move_inside :
    (m : Bytes) (dst src n i : ℕ) → i < n → move_bytes m dst src n (dst + i) ≡ m (src + i)
unfolding move_bytes
move_inside m dst src n i lt =
    let here : dst + i - dst ≡ i = omega arith in
    let from : leb dst (dst + i) ≡ true = ground arith in
    let to : ltb (dst + i) (dst + n) ≡ true = ground (arith, lt) in simp (from, to, here) refl

pub move_outside :
    (m : Bytes) (dst src n x : ℕ) → (x < dst) ⊎ (dst + n ≤ x) → move_bytes m dst src n x ≡ m x
unfolding move_bytes
move_outside m dst src n x out = ground (arith, out)
