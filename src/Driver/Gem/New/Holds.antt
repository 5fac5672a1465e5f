-- ===== src/Driver/Gem/New/Holds.antt =====
-- What a request for a new buffer object leaves held (driver/strela_gem.c).
use strela_pynq.Base.{
  ℕ, ◌+◌, ◌%◌, ◌^◌, ◌<◌, ◌≤◌, ◌≡◌, ◌≢◌, ◌⊎◌, inl, inr, refl, arith, true, false, Bool-cases, ◌↔◌,
  sub64, bit_and, List, Option, none, some,
}
use strela_pynq.Bits.{and-mask}
use strela_pynq.Uapi.{GemNew, word_size}
use strela_pynq.Driver.Binding.{Errno, einval}
use strela_pynq.Driver.Gem.{
  Resource, memory, object_base, mapping, Event, CreateReplies, strela_gem_create, bad, create,
  gem_new_check, page_size, page_align, is_aligned_to,
}
use strela_pynq.Driver.Gem.Create.{acquired, released, strela_gem_create-balanced}
use strela_pynq.Driver.Gem.New.{
  strela_gem_free, NewObject, object_put, HandleAnswer, no_handle, handle, NewResult, new_handle,
  new_object, new_checked, strela_gem_new_ioctl,
}

-- Everything that was acquired for the object is released again.
abbrev pub IsGivenBack : NewObject → Type 0
IsGivenBack o = (q : Resource) → acquired q o.trace ≡ released q o.trace

-- The flags and the size that are refused.
abbrev pub IsBad : GemNew → Type 0
IsBad args = (args.flags ≢ 0) ⊎ ((args.size ≡ 0) ⊎ (args.size % word_size ≢ 0))

abbrev pub IsGood : GemNew → Type 0
IsGood args = (args.flags ≡ 0) × (args.size ≢ 0) × (args.size % word_size ≡ 0)

pub data News (args : GemNew) (node_offset : ℕ) (answer : HandleAnswer) : NewResult → Type 0 where
  refused :
      IsBad args
      → News args node_offset answer (record { ret = some einval; written = none; object = none })
  failed :
      {e : Errno} {o : NewObject}
      → IsGood args
      → (o.refs ≡ 0) × IsGivenBack o
      → News args node_offset answer (record { ret = some e; written = none; object = some o })
  created :
      {o : NewObject} {h : ℕ}
      → IsGood args
      → answer ≡ handle h
      → (args.size ≤ o.size) × (o.size < args.size + page_size) × (o.size % page_size ≡ 0)
      → o.refs ≡ 1
      → ((q : Resource) → (acquired q o.trace ≡ 1) × (released q o.trace ≡ 0))
      → IsGivenBack (object_put o)
      → News args node_offset answer
          (record { ret = none; written = some (h, node_offset); object = some o })

free-given_back :
    (trace : List Event)
    → ((q : Resource) → (acquired q trace ≡ 1) × (released q trace ≡ 0))
    → (q : Resource)
    → acquired q (strela_gem_free false true trace) ≡ released q (strela_gem_free false true trace)
unfolding strela_gem_free
free-given_back trace one memory = ground (arith, one memory)
free-given_back trace one object_base = ground (arith, one object_base)
free-given_back trace one mapping = ground (arith, one mapping)

module _ (args : GemNew) (node_offset : ℕ) (answer : HandleAnswer) (good : IsGood args) where
  handle-News :
      (size : ℕ) (trace : List Event) (a : HandleAnswer)
      → answer ≡ a
      → (args.size ≤ size) × (size < args.size + page_size) × (size % page_size ≡ 0)
      → ((q : Resource) → (acquired q trace ≡ 1) × (released q trace ≡ 0))
      → News args node_offset answer
          (new_handle node_offset (record { size = size; refs = 1; trace = trace }) a)
  unfolding new_handle object_put
  handle-News size trace (no_handle e) at fits one = failed good (refl, free-given_back trace one)
  handle-News size trace (handle h) at fits one =
      created good at fits refl one (free-given_back trace one)

  object-News :
      (size : ℕ) (r : Option Errno × List Event)
      → (args.size ≤ size) × (size < args.size + page_size) × (size % page_size ≡ 0)
      → ((q : Resource)
          → ((e : Errno) → r.0 ≡ some e → acquired q r.1 ≡ released q r.1)
            × (r.0 ≡ none → (acquired q r.1 ≡ 1) × (released q r.1 ≡ 0)))
      → News args node_offset answer (new_object size node_offset answer r)
  unfolding new_object
  object-News size (some e, trace) fits b = failed good (refl, λ q. (b q).0 e refl)
  object-News size (none, trace) fits b =
      handle-News size trace answer refl fits (λ q. (b q).1 refl)

page_align-fits :
    (n : ℕ)
    → n + page_size < 2 ^ 64
    → (n ≤ page_align n) × (page_align n < n + page_size) × (page_align n % page_size ≡ 0)
unfolding page_align
page_align-fits n h = omega arith

word_aligned : (n : ℕ) → (is_aligned_to n word_size ≡ true) ↔ (n % word_size ≡ 0)
unfolding is_aligned_to
word_aligned n =
    let e : (bit_and n (sub64 word_size 1) ≡ n % word_size) = and-mask 2 n in
    rw e (λ h. ground arith, λ h. ground arith)

gem_new_check-cases :
    (args : GemNew)
    → (IsBad args × (gem_new_check args ≡ bad einval))
      ⊎ (IsGood args × (gem_new_check args ≡ create (page_align args.size)))
unfolding gem_new_check
gem_new_check-cases args = elim (Bool-cases (is_aligned_to args.size word_size)) [
  | inl whole ↦ ground (arith, whole, (word_aligned args.size).0 whole)
  | inr split ↦ ground (arith, split, (word_aligned args.size).1)
]

-- A request for a new object is refused exactly when it has flags, or a size of 0 or of no whole
-- words; nothing is made then. If it fails otherwise, all that was acquired is released again, and no
-- reference is left. If it succeeds, the object has the size of the request rounded up to whole
-- pages, one of each resource, and one reference, which is the handle's: to put that one frees
-- the object and releases them all. The sizes are those that rounding up does not wrap.
pub strela_gem_new_ioctl-News :
    (args : GemNew) (replies : CreateReplies) (node_offset : ℕ) (answer : HandleAnswer)
    → args.size + page_size < 2 ^ 64
    → News args node_offset answer (strela_gem_new_ioctl args replies node_offset answer)
unfolding strela_gem_new_ioctl new_checked
strela_gem_new_ioctl-News args replies node_offset answer small = elim (gem_new_check-cases args) [
  | inl (wrong, is) ↦ simp (is) (refused wrong)
  | inr (good, is) ↦ simp (is) (
      object-News args node_offset answer good (page_align args.size) (strela_gem_create replies)
        (page_align-fits args.size small) (λ q. strela_gem_create-balanced replies q))
]
