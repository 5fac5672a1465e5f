-- ===== src/OldDriver/Bounds.antt =====
-- The ranges that the first driver accepts (driver/strela_driver.c, `strela_check_bounds` and
-- IOCTL_STRELA_CONTROL).
use native.Mathlib.Nat.{add-mul, add-mul-mod_self_left, mul_assoc}
use strela_pynq.Base.{
  ℕ, ◌+◌, ◌*◌, ◌/◌, ◌^◌, ◌≤◌, ◌<◌, ◌≡◌, ◌≢◌, ◌↔◌, ◌⊎◌, inl, inr, refl, sym, ap, ◌∙◌, arith, Bool,
  true, false, ◌||◌, Bool-cases, List, [], ◌∷◌, Option, none, some, u32, bit_or, subst, ◌%◌,
}
use strela_pynq.Uapi.{word_size}
use strela_pynq.Driver.Binding.{strela_input_size, stride_or_one}
use strela_pynq.OldDriver.{
  region_size, Range, Ctrl, Event, wrote, OldDevice, Error, einval, Waited, control,
  strela_check_bounds, ranges, any_out_of_bounds, address_of, strela_mkinpsize, control_writes,
  write_all, strela_ioctl, ioctl_control,
}

-- The words of a range, a stride apart, end inside the region.
abbrev pub Inside : Range → Type 0
Inside r = r.offset * 4 + r.count * r.stride * 4 ≤ region_size

-- `strela_check_bounds` answers false, which accepts the range, exactly when the offset and the
-- product of count and stride, in bytes and computed without any wrap-around, sum up to at most the
-- region's size. A range that ends at the region's end is accepted.
pub strela_check_bounds_iff :
    (r : Range) → (strela_check_bounds r.offset r.count r.stride ≡ false) ↔ Inside r
unfolding strela_check_bounds
strela_check_bounds_iff r = (λ h. ground (arith, h), λ h. ground (arith, h))

abbrev pub AllInside : List Range → Type 0
AllInside [] = Unit {0}
AllInside (r ∷ rs) = Inside r × AllInside rs

or_false : (a b : Bool) → (a || b) ≡ false → (a ≡ false) × (b ≡ false)
or_false false b h = (refl, h)
or_false true b h = absurd (cc h)

or_true : (a b : Bool) → (a || b) ≡ true → (a ≡ true) ⊎ (b ≡ true)
or_true false b h = inr h
or_true true b h = inl refl

any_out_of_bounds-inside : (rs : List Range) → any_out_of_bounds rs ≡ false → AllInside rs
any_out_of_bounds-inside [] h = tt
any_out_of_bounds-inside (r ∷ rs) h =
    let (first, rest) =
      or_false (strela_check_bounds r.offset r.count r.stride) (any_out_of_bounds rs) h in
    ((strela_check_bounds_iff r).0 first, any_out_of_bounds-inside rs rest)

any_out_of_bounds-outside : (rs : List Range) → any_out_of_bounds rs ≡ true → ¬ AllInside rs
any_out_of_bounds-outside [] h all = absurd (ground (arith, h))
any_out_of_bounds-outside (r ∷ rs) h all =
    elim (or_true (strela_check_bounds r.offset r.count r.stride) (any_out_of_bounds rs) h) [
      | inl first ↦ absurd (ground (arith, first, (strela_check_bounds_iff r).1 all.0))
      | inr rest ↦ any_out_of_bounds-outside rs rest all.1
    ]

-- All nine ranges of a request end inside the region, each by its name.
pub record Within (ctrl : Ctrl) : Type 0 where
  pub conf : ctrl.conf.offset * 4 + ctrl.conf.count * 4 ≤ region_size
  pub inp0 : Inside ctrl.inp0
  pub inp1 : Inside ctrl.inp1
  pub inp2 : Inside ctrl.inp2
  pub inp3 : Inside ctrl.inp3
  pub out0 : ctrl.out0.offset * 4 + ctrl.out0.count * 4 ≤ region_size
  pub out1 : ctrl.out1.offset * 4 + ctrl.out1.count * 4 ≤ region_size
  pub out2 : ctrl.out2.offset * 4 + ctrl.out2.count * 4 ≤ region_size
  pub out3 : ctrl.out3.offset * 4 + ctrl.out3.count * 4 ≤ region_size

AllInside-Within : (ctrl : Ctrl) → AllInside (ranges ctrl) → Within ctrl
AllInside-Within ctrl (conf, (inp0, (inp1, (inp2, (inp3, (out0, (out1, (out2, (out3, _))))))))) =
    record {
      conf = omega (arith, conf);
      inp0 = inp0;
      inp1 = inp1;
      inp2 = inp2;
      inp3 = inp3;
      out0 = omega (arith, out0);
      out1 = omega (arith, out1);
      out2 = omega (arith, out2);
      out3 = omega (arith, out3);
    }

Within-AllInside : (ctrl : Ctrl) → Within ctrl → AllInside (ranges ctrl)
Within-AllInside ctrl w = (
  omega (arith, w.conf),
  (
    w.inp0,
    (
      w.inp1,
      (
        w.inp2,
        (
          w.inp3,
          (
            omega (arith, w.out0),
            (omega (arith, w.out1), (omega (arith, w.out2), (omega (arith, w.out3), tt))),
          ),
        ),
      ),
    ),
  ),
)

-- Two neighbouring registers: an address, and the word behind it.
abbrev pair : (register address size : ℕ) → List Event → List Event
pair register address size rest = wrote (register + 4, size) ∷ wrote (register, address) ∷ rest

-- An address and a number of bytes; an input has its stride in bytes in the upper half of the word.
abbrev flat_pair : (register dma_addr : ℕ) → Range → List Event → List Event
flat_pair register a r rest = pair register (a + r.offset * 4) (r.count * 4) rest

abbrev input_pair : (register dma_addr : ℕ) → Range → List Event → List Event
input_pair register a r rest =
    pair register (a + r.offset * 4)
      (bit_or (r.stride * 4 * 2 ^ 16 % 2 ^ 32) (r.stride * 4 * r.count)) rest

-- The nineteen registers that a request sets, the last first.
abbrev pub registers : (dma_addr : ℕ) → Ctrl → List Event → List Event
registers a ctrl before =
    wrote (0xA0, 1)
    ∷ flat_pair 0x68 a ctrl.out3 (
        flat_pair 0x60 a ctrl.out2 (
          flat_pair 0x58 a ctrl.out1 (
            flat_pair 0x50 a ctrl.out0 (
              input_pair 0x28 a ctrl.inp3 (
                input_pair 0x20 a ctrl.inp2 (
                  input_pair 0x18 a ctrl.inp1
                    (input_pair 0x10 a ctrl.inp0 (flat_pair 0x4 a ctrl.conf before))))))))

u32_mul : (x c : ℕ) → u32 (u32 x * c) ≡ u32 (x * c)
u32_mul x c =
    sym (ap (λ (y : ℕ). u32 y) parts ∙ add-mul-mod_self_left (u32 x * c) (2 ^ 32) (x / 2 ^ 32 * c))
  where
    whole : x ≡ u32 x + 2 ^ 32 * (x / 2 ^ 32)
    whole = omega arith

    parts : x * c ≡ u32 x * c + 2 ^ 32 * (x / 2 ^ 32 * c)
    parts =
        ap (λ (y : ℕ). y * c) whole
        ∙ add-mul (u32 x) (2 ^ 32 * (x / 2 ^ 32)) c
        ∙ ap (λ (y : ℕ). u32 x * c + y) (mul_assoc (2 ^ 32) (x / 2 ^ 32) c)

module _ (a : ℕ) (low : a + region_size < 2 ^ 32) (r : Range) where
  address_lem : Inside r → address_of a r ≡ a + r.offset * 4
  address_lem h = omega arith

  flat_address_lem : r.offset * 4 + r.count * 4 ≤ region_size → address_of a r ≡ a + r.offset * 4
  flat_address_lem h = omega arith

  flat_size_lem : r.offset * 4 + r.count * 4 ≤ region_size → u32 (r.count * word_size) ≡ r.count * 4
  flat_size_lem h = omega arith

  input_size_lem :
      Inside r
      → strela_mkinpsize (u32 (r.stride * word_size)) r.count
        ≡ bit_or (r.stride * 4 * 2 ^ 16 % 2 ^ 32) (r.stride * 4 * r.count)
  unfolding strela_mkinpsize
  input_size_lem h =
      simp (u32_mul (r.stride * 4) (2 ^ 16), u32_mul (r.stride * 4) r.count, bytes) refl
    where
      bytes : u32 (r.stride * 4 * r.count) ≡ r.stride * 4 * r.count
      bytes =
          let order : r.stride * 4 * r.count ≡ r.count * r.stride * 4 = grind arith in
          omega (arith, order, h)

control_writes-registers :
    {C : Type 0} (d : OldDevice C) (ctrl : Ctrl)
    → d.dma_addr + region_size < 2 ^ 32
    → Within ctrl
    → write_all (control_writes d.dma_addr ctrl) d
      ≡ record d { events = registers d.dma_addr ctrl d.events }
unfolding control_writes
control_writes-registers d ctrl low w =
    let a = d.dma_addr in
    simp
      (
        flat_address_lem a low ctrl.conf w.conf,
        flat_size_lem a low ctrl.conf w.conf,
        address_lem a low ctrl.inp0 w.inp0,
        input_size_lem a low ctrl.inp0 w.inp0,
        address_lem a low ctrl.inp1 w.inp1,
        input_size_lem a low ctrl.inp1 w.inp1,
        address_lem a low ctrl.inp2 w.inp2,
        input_size_lem a low ctrl.inp2 w.inp2,
        address_lem a low ctrl.inp3 w.inp3,
        input_size_lem a low ctrl.inp3 w.inp3,
        flat_address_lem a low ctrl.out0 w.out0,
        flat_size_lem a low ctrl.out0 w.out0,
        flat_address_lem a low ctrl.out1 w.out1,
        flat_size_lem a low ctrl.out1 w.out1,
        flat_address_lem a low ctrl.out2 w.out2,
        flat_size_lem a low ctrl.out2 w.out2,
        flat_address_lem a low ctrl.out3 w.out3,
        flat_size_lem a low ctrl.out3 w.out3,
      )
      refl

pub data Controls {C : Type 0} (d : OldDevice C) (ctrl : Ctrl)
    : Option Error × OldDevice C → Type 0 where
  refused : ¬ Within ctrl → Controls d ctrl (some einval, d)
  programmed :
      Within ctrl → Controls d ctrl (none, record d { events = registers d.dma_addr ctrl d.events })

-- With the region below 4 GB, IOCTL_STRELA_CONTROL either refuses, because one of the nine ranges does
-- not end inside the region, and changes nothing, or all nine end inside it. Then it writes nineteen
-- registers and changes nothing else: for each range the address of its first byte, and its size,
-- which is its number of bytes for the configuration and the outputs, and for an input that or-ed
-- with the stride in bytes in the upper half of the word; and last 1 to STRELA_REG_OUT_ARB_HOLD.
pub strela_ioctl-Controls :
    {C : Type 0} (wait : C → ℕ → Waited × C) (during : OldDevice C → OldDevice C) (d : OldDevice C)
    (ctrl : Ctrl)
    → d.dma_addr + region_size < 2 ^ 32
    → Controls d ctrl (strela_ioctl wait during (control (some ctrl)) d)
unfolding strela_ioctl ioctl_control
strela_ioctl-Controls wait during d ctrl low = elim (Bool-cases (any_out_of_bounds (ranges ctrl))) [
  | inl out ↦
      rw out (refused λ w. any_out_of_bounds-outside (ranges ctrl) out (Within-AllInside ctrl w))
  | inr inside ↦
      let w = AllInside-Within ctrl (any_out_of_bounds-inside (ranges ctrl) inside) in
      rw inside (
        subst (λ e. Controls d ctrl (none, e)) (sym (control_writes-registers d ctrl low w))
          (programmed w))
]

-- For every stride but 0 the size register gets the value that the newer driver gives it, also
-- where the products wrap. (The newer driver takes a stride of 0 for 1 in the number of bytes.)
pub strela_mkinpsize-strela_input_size :
    (count stride : ℕ)
    → stride ≢ 0
    → strela_mkinpsize (u32 (stride * word_size)) count ≡ strela_input_size count stride
unfolding strela_mkinpsize strela_input_size
strela_mkinpsize-strela_input_size count stride ne =
    ap (bit_or (u32 (u32 (stride * word_size) * 2 ^ 16))) (
      u32_mul (stride * word_size) count
      ∙ ap (λ (y : ℕ). u32 y) order
      ∙ sym (u32_mul (stride_or_one stride * count) word_size))
  where
    order : stride * word_size * count ≡ stride_or_one stride * count * word_size
    order = grind (arith, ne)
