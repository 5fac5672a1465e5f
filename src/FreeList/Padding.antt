-- ===== src/FreeList/Padding.antt =====
-- The padding in front of an allocation.
use native.Mathlib.Nat.{mod-lt, add-mul-mod_self_left, div-add-mod}
use strela_pynq.Base.{
  ℕ, ◌+◌, ◌-◌, ◌*◌, ◌/◌, ◌%◌, ◌^◌, ◌≤◌, ◌<◌, ◌≡◌, inl, inr, arith, ap, ◌∙◌, ◌==◌, ltb, returned,
  Bool-cases, sub64, add64, ltb→lt,
}
use strela_pynq.Align.PowerOfTwo.{IsPow2, pow2-pos, is_power_of_two_iff}
use strela_pynq.Align.Laws.{and-pred-mod, next-multiple}
use strela_pynq.FreeList.{
  to_boundary, whole_alignments, padding_with_header, calc_padding_with_header,
}

-- `r` bytes in front of an allocation at `p` hold a header and reach the alignment, and no
-- smaller number does.
pub record IsPadding (p a header r : ℕ) : Type 0 where
  pub holds : header ≤ r
  pub aligned : (p + r) % a ≡ 0
  pub least : r < header + a

module _ (a : ℕ) (two : IsPow2 a) (small : a < 2 ^ 64) where
  to_boundary_lem : (p : ℕ) → (to_boundary p a < a) × ((p + to_boundary p a) % a ≡ 0)
  unfolding to_boundary
  to_boundary_lem p =
      rw (and-pred-mod p a two small)
        (ground (arith, mod-lt p (pow2-pos two), next-multiple p a (pow2-pos two)))

  whole_alignments_lem :
      (needed : ℕ)
      → needed + a < 2 ^ 64
      → (k : ℕ) × (whole_alignments needed a ≡ a * k) × (needed ≤ a * k) × (a * k < needed + a)
  unfolding whole_alignments
  whole_alignments_lem needed fits =
      rw (and-pred-mod needed a two small) (elim (Bool-cases (needed % a == 0)) [
        | inl whole ↦ rw whole (
          needed / a,
          ground (arith, div-add-mod needed a),
          ground (arith, div-add-mod needed a),
          ground (arith, div-add-mod needed a, pos),
        )
        | inr part ↦
            rw part
              (1 + needed / a, ground (arith, next), ground (arith, next), ground (arith, next))
      ])
    where
      pos : 0 < a
      pos = pow2-pos two

      next : (a * (1 + needed / a) + needed % a ≡ needed + a) × (needed % a < a)
      next = (omega (arith, div-add-mod needed a), mod-lt needed pos)

  -- At an alignment that is a power of two, and where nothing wraps, the padding of a pointer holds
  -- the header, brings what follows to the alignment, and is below the header plus the alignment.
  pub padding_with_header-IsPadding :
      (p header : ℕ)
      → p + header + 2 * a < 2 ^ 64
      → IsPadding p a header (padding_with_header p a header)
  unfolding padding_with_header
  padding_with_header-IsPadding p header fits = elim (Bool-cases (ltb t header)) [
    | inr enough ↦ rw enough (ground (arith, to_boundary_lem p))
    | inl less ↦ rw (less, rounded (ltb→lt t header less)) (added (ltb→lt t header less))
  ]
    where
      t : ℕ
      t = to_boundary p a

      needed : ℕ
      needed = header - t

      whole :
          (k : ℕ) × (whole_alignments needed a ≡ a * k) × (needed ≤ a * k) × (a * k < needed + a)
      whole = whole_alignments_lem needed (omega arith)

      rounded : t < header → add64 t (whole_alignments (sub64 header t) a) ≡ t + a * whole.0
      rounded less =
          let exact : sub64 header t ≡ needed = omega arith in
          rw (exact, whole.1) (omega (arith, whole.2, whole.3))

      added : t < header → IsPadding p a header (t + a * whole.0)
      added less = record {
        holds = omega (arith, whole.2);
        aligned =
            ap (λ (x : ℕ). x % a)
              (let r : p + (t + a * whole.0) ≡ p + t + a * whole.0 = omega arith in r)
            ∙ add-mul-mod_self_left (p + t) a whole.0
            ∙ (to_boundary_lem p).1;
        least = omega (arith, whole.3);
      }

  -- The assertion of `calc_padding_with_header` holds.
  pub calc_padding-returned :
      (p header : ℕ)
      → calc_padding_with_header p a header ≡ returned (padding_with_header p a header)
  unfolding calc_padding_with_header
  calc_padding-returned p header = rw ((is_power_of_two_iff a small).1 two)
