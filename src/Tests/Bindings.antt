-- ===== src/Tests/Bindings.antt =====
-- The driver's unit test of its check of bindings (driver/strela_job.c, `strela_binding_cases`,
-- `strela_binding_check_test`).
use strela_pynq.Base.{ℕ, ◌≡◌, refl, Bool, true, false, ◌&&◌, List, [], ◌∷◌, Option, none, some}
use strela_pynq.Uapi.{StridedBinding}
use strela_pynq.Driver.Binding.{Errno, einval, strela_binding_check}

record BindingCase : Type 0 where
  obj_size : ℕ
  binding : StridedBinding
  expected : Option Errno

abbrev binding_case : (obj_size offset count stride : ℕ) → Option Errno → BindingCase
binding_case obj_size offset count stride expected = record {
  obj_size = obj_size;
  binding = record { handle = 1; offset = offset; count = count; stride = stride };
  expected = expected;
}

-- In the order of the source, from "exact fit" to "one word too large to encode".
abbrev strela_binding_cases : List BindingCase
strela_binding_cases =
    binding_case 64 0 16 1 none
    ∷ binding_case 64 8 8 1 none
    ∷ binding_case 64 0 0 1 none
    ∷ binding_case 64 0 16 0 none
    ∷ binding_case 64 0 17 1 (some einval)
    ∷ binding_case 64 16 0 0x40000000 none
    ∷ binding_case 64 17 0 1 (some einval)
    ∷ binding_case 64 0 16 2 (some einval)
    ∷ binding_case 18446744073709551615 0 0x40000000 4 (some einval)
    ∷ binding_case 18446744073709551615 0 4 0x40000000 (some einval)
    ∷ binding_case 0x100000 0 0x3FFF 1 none
    ∷ binding_case 0x100000 0 0x4000 1 (some einval)
    ∷ []

abbrev same_result : Option Errno → Option Errno → Bool
same_result none none = true
same_result (some einval) (some einval) = true
same_result _ _ = false

abbrev strela_binding_check_test : BindingCase → Bool
strela_binding_check_test c = same_result (strela_binding_check c.obj_size c.binding) c.expected

abbrev all_pass : List BindingCase → Bool
all_pass [] = true
all_pass (c ∷ cs) = strela_binding_check_test c && all_pass cs

strela_binding_cases_pass : all_pass strela_binding_cases ≡ true
unfolding strela_binding_check
strela_binding_cases_pass = refl
