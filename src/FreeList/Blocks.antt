-- ===== src/FreeList/Blocks.antt =====
-- What the free list stands for: a sequence of blocks, each an address and a size.
use strela_pynq.Base.{
  ℕ, ◌+◌, ◌%◌, ◌≤◌, ◌<◌, ◌≡◌, ◌≢◌, ◌⊎◌, inl, inr, ◌==◌, if◌then◌else◌, refl, sym, subst, ◌∙◌, List,
  [], ◌∷◌, ◌++◌, arith,
}
use strela_pynq.Memory.{Ptr, null, Mem}

abbrev pub Block : Type 0
Block = ℕ × ℕ

-- From `p` the nodes lead through the blocks to `q`.
abbrev pub Seg : List Block → Mem → Ptr → Ptr → Type 0
Seg [] m p q = p ≡ q
Seg ((a, s) ∷ bs) m p q = (p ≡ a) × (m (a + 8) ≡ s) × Seg bs m (m a) q

-- The blocks lie between `lo` and `hi`, in order of address and apart; each is aligned and has
-- room for a node.
abbrev pub Within : List Block → ℕ → ℕ → Type 0
Within [] lo hi = lo ≤ hi
Within ((a, s) ∷ bs) lo hi = (lo ≤ a) × (a % 16 ≡ 0) × (16 ≤ s) × Within bs (a + s) hi

abbrev pub total : List Block → ℕ
total [] = 0
total ((a, s) ∷ bs) = s + total bs

-- The address of the last block, or `d`.
abbrev pub last_of : List Block → Ptr → Ptr
last_of [] d = d
last_of ((a, s) ∷ bs) d = last_of bs a

pub last_of-snoc : (xs : List Block) (a s : ℕ) (d : Ptr) → last_of (xs ++ (a, s) ∷ []) d ≡ a
last_of-snoc [] a s d = refl
last_of-snoc ((b, u) ∷ xs) a s d = last_of-snoc xs a s b

-- Where the word of `prev`, or the head if there is no `prev`, leads.
abbrev pub LeadsTo : Mem → (head prev : Ptr) → Ptr → Type 0
LeadsTo m head prev q = (prev ≡ null → head ≡ q) × (prev ≢ null → m prev ≡ q)

pub total-append : (xs ys : List Block) → total (xs ++ ys) ≡ total xs + total ys
total-append [] ys = omega arith
total-append ((a, s) ∷ xs) ys = omega (arith, total-append xs ys)

pub Within-total : (bs : List Block) (lo hi : ℕ) → Within bs lo hi → lo + total bs ≤ hi
Within-total [] lo hi w = omega arith
Within-total ((a, s) ∷ bs) lo hi w = omega (arith, Within-total bs (a + s) hi w.3)

pub Within-le : (bs : List Block) (lo hi : ℕ) → Within bs lo hi → lo ≤ hi
Within-le bs lo hi w = omega (arith, Within-total bs lo hi w)

pub Within-lower : (bs : List Block) (lo lo' hi : ℕ) → lo' ≤ lo → Within bs lo hi → Within bs lo' hi
Within-lower [] lo lo' hi h w = omega arith
Within-lower ((a, s) ∷ bs) lo lo' hi h w = (omega arith, w.1, w.2, w.3)

pub Within-append :
    (xs ys : List Block) (lo mid hi : ℕ)
    → Within xs lo mid
    → Within ys mid hi
    → Within (xs ++ ys) lo hi
Within-append [] ys lo mid hi v w = Within-lower ys mid lo hi v w
Within-append ((a, s) ∷ xs) ys lo mid hi v w =
    (v.0, v.1, v.2, Within-append xs ys (a + s) mid hi v.3 w)

-- A block and its surroundings.
pub Within-split :
    (xs : List Block) (a s : ℕ) (ys : List Block) (lo hi : ℕ)
    → Within (xs ++ (a, s) ∷ ys) lo hi
    → Within xs lo a × (a % 16 ≡ 0) × (16 ≤ s) × Within ys (a + s) hi
Within-split [] a s ys lo hi w = w
Within-split ((b, u) ∷ xs) a s ys lo hi w =
    let r = Within-split xs a s ys (b + u) hi w.3 in ((w.0, w.1, w.2, r.0), r.1, r.2, r.3)

pub Seg-append :
    (xs ys : List Block) (m : Mem) (p r q : Ptr)
    → Seg xs m p r
    → Seg ys m r q
    → Seg (xs ++ ys) m p q
Seg-append [] ys m p r q s t = subst (λ x. Seg ys m x q) (sym s) t
Seg-append ((a, u) ∷ xs) ys m p r q s t = (s.0, s.1, Seg-append xs ys m (m a) r q s.2 t)

pub Seg-split :
    (xs ys : List Block) (m : Mem) (p q : Ptr)
    → Seg (xs ++ ys) m p q
    → (r : Ptr) × Seg xs m p r × Seg ys m r q
Seg-split [] ys m p q s = (p, refl, s)
Seg-split ((a, u) ∷ xs) ys m p q s =
    let (r, t, rest) = Seg-split xs ys m (m a) q s.2 in (r, (s.0, s.1, t), rest)

module _ (m g : Mem) where
  -- A segment survives any change outside its blocks.
  pub Seg-frame :
      (bs : List Block) (lo hi : ℕ) (p q : Ptr)
      → Within bs lo hi
      → ((x : ℕ) → lo ≤ x → x < hi → g x ≡ m x)
      → Seg bs m p q
      → Seg bs g p q
  Seg-frame [] lo hi p q w same s = s
  Seg-frame ((a, u) ∷ bs) lo hi p q w same s = (
    s.0,
    same (a + 8) (omega arith) (omega (arith, Within-le bs (a + u) hi w.3)) ∙ s.1,
    subst (λ x. Seg bs g x q)
        (sym (same a (omega arith) (omega (arith, Within-le bs (a + u) hi w.3))))
        (Seg-frame bs (a + u) hi (m a) q w.3 (λ x lo' hi'. same x (omega arith) hi') s.2),
  )

pub last-le :
    (bs : List Block) (lo hi d b : ℕ) → Within bs lo hi → b ≤ d → b ≤ lo → b ≤ last_of bs d
last-le [] lo hi d b w h k = h
last-le ((a, s) ∷ bs) lo hi d b w h k = last-le bs (a + s) hi a b w.3 (omega arith) (omega arith)

pub last-lt :
    (bs : List Block) (lo hi d : ℕ) → Within bs lo hi → d + 16 ≤ lo → last_of bs d + 16 ≤ hi
last-lt [] lo hi d w h = omega arith
last-lt ((a, s) ∷ bs) lo hi d w h = last-lt bs (a + s) hi a w.3 (omega arith)

-- What a segment's last node leads to.
pub Seg-LeadsTo :
    (bs : List Block) (m : Mem) (lo hi p q : ℕ)
    → Within bs lo hi
    → 0 < lo
    → Seg bs m p q
    → LeadsTo m p (last_of bs null) q
Seg-LeadsTo [] m lo hi p q w pos s = (λ _. s, λ h. absurd (h refl))
Seg-LeadsTo ((a, u) ∷ bs) m lo hi p q w pos s = (
  λ z. absurd (omega (arith, last-le bs (a + u) hi a 1 w.3 (omega arith) (omega arith))),
  λ _. onwards bs a (a + u) w.3 s.2,
)
  where
    onwards :
        (bs : List Block) (a lo : ℕ) → Within bs lo hi → Seg bs m (m a) q → m (last_of bs a) ≡ q
    onwards [] a lo w s = s
    onwards ((b, v) ∷ bs) a lo w s = onwards bs b (b + v) w.3 s.2

-- Changing where the last node leads.
module _ (m g : Mem) where
  relink-cons :
      (bs : List Block) (a u lo hi p q t : ℕ)
      → Within ((a, u) ∷ bs) lo hi
      → ((x : ℕ) → lo ≤ x → x < hi → x ≢ last_of bs a → g x ≡ m x)
      → g (last_of bs a) ≡ t
      → Seg ((a, u) ∷ bs) m p q
      → Seg ((a, u) ∷ bs) g p t
  relink-cons [] a u lo hi p q t w same to s =
      (s.0, same (a + 8) (omega arith) (omega arith) (omega arith) ∙ s.1, to)
  relink-cons ((b, v) ∷ bs) a u lo hi p q t w same to s = (
    s.0,
    same (a + 8) (omega arith) (omega (arith, below)) (omega (arith, far)) ∙ s.1,
    subst (λ x. Seg ((b, v) ∷ bs) g x t)
        (sym (same a (omega arith) (omega (arith, below)) (omega (arith, far))))
        (relink-cons bs b v (a + u) hi (m a) q t w.3 (λ x lo' hi' ne. same x (omega arith) hi' ne)
          to s.2),
  )
    where
      far : a + u ≤ last_of bs b
      far = last-le bs (b + v) hi b (a + u) w.3.3 w.3.0 (omega arith)

      below : a + u ≤ hi
      below = Within-le ((b, v) ∷ bs) (a + u) hi w.3

  pub Seg-relink :
      (bs : List Block) (lo hi p p' q t : ℕ)
      → Within bs lo hi
      → 0 < lo
      → ((x : ℕ) → lo ≤ x → x < hi → x ≢ last_of bs null → g x ≡ m x)
      → (last_of bs null ≢ null → p' ≡ p)
      → LeadsTo g p' (last_of bs null) t
      → Seg bs m p q
      → Seg bs g p' t
  Seg-relink [] lo hi p p' q t w pos same head to s = to.0 refl
  Seg-relink ((a, u) ∷ bs) lo hi p p' q t w pos same head to s =
      subst (λ x. Seg ((a, u) ∷ bs) g x t) (sym (head there))
        (relink-cons bs a u lo hi p q t w same (to.1 there) s)
    where
      there : last_of bs a ≢ null
      there z = omega (arith, last-le bs (a + u) hi a 1 w.3 (omega arith) (omega arith))

-- The address lies in none of the blocks.
abbrev pub Outside : List Block → Ptr → Type 0
Outside [] x = Unit {0}
Outside ((a, s) ∷ bs) x = ((x < a) ⊎ (a + s ≤ x)) × Outside bs x

-- What is left of a block from `a` on, if it is anything, before the blocks behind it.
abbrev pub leftover : (a t : ℕ) → List Block → List Block
leftover a t behind = if t == 0 then behind else (a, t) ∷ behind

pub Outside-at :
    (xs : List Block) (a s : ℕ) (ys : List Block) (x : Ptr)
    → Outside (xs ++ (a, s) ∷ ys) x
    → (x < a) ⊎ (a + s ≤ x)
Outside-at [] a s ys x out = out.0
Outside-at ((b, u) ∷ xs) a s ys x out = Outside-at xs a s ys x out.1

-- An address outside the blocks is not the address of the last of some of them.
pub Outside-last :
    (xs ys : List Block) (x d lo hi : ℕ)
    → Within xs lo hi
    → x ≢ d
    → Outside (xs ++ ys) x
    → x ≢ last_of xs d
Outside-last [] ys x d lo hi w ne out = ne
Outside-last ((a, s) ∷ xs) ys x d lo hi w ne out =
    Outside-last xs ys x a (a + s) hi w.3 (omega (arith, out.0)) out.1

-- It is not in the node of the last of some of them either.
pub Outside-last_node :
    (xs ys : List Block) (x d lo hi : ℕ)
    → Within xs lo hi
    → (x < d) ⊎ (d + 16 ≤ x)
    → Outside (xs ++ ys) x
    → (x < last_of xs d) ⊎ (last_of xs d + 16 ≤ x)
Outside-last_node [] ys x d lo hi w far out = far
Outside-last_node ((a, s) ∷ xs) ys x d lo hi w far out =
    Outside-last_node xs ys x a (a + s) hi w.3 (omega (arith, out.0)) out.1

-- The last of some blocks below `hi`, if there is one, has its node below `hi`.
pub last_of-below :
    (bs : List Block) (lo hi : ℕ)
    → Within bs lo hi
    → (last_of bs null ≡ 0) ⊎ (last_of bs null + 16 ≤ hi)
last_of-below [] lo hi w = inl refl
last_of-below ((b, u) ∷ bs) lo hi w = inr (last-lt bs (b + u) hi b w.3 (omega arith))
