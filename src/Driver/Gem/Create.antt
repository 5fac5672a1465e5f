-- ===== src/Driver/Gem/Create.antt =====
-- Creating a buffer object.
use strela_pynq.Base.{
  ℕ, ◌+◌, ◌≡◌, Bool, true, false, List, [], ◌∷◌, none, some, arith, if◌then◌else◌,
}
use strela_pynq.Driver.Binding.{Errno}
use strela_pynq.Driver.Gem.{
  Resource, memory, object_base, mapping, Event, acquire, release, CreateReplies, strela_gem_create,
}

abbrev pub same : Resource → Resource → Bool
same memory memory = true
same object_base object_base = true
same mapping mapping = true
same _ _ = false

-- How often a trace acquires a resource, and how often it releases it.
abbrev pub acquired : Resource → List Event → ℕ
acquired r [] = 0
acquired r (acquire q ∷ t) = (if same r q then 1 else 0) + acquired r t
acquired r (release q ∷ t) = acquired r t

abbrev pub released : Resource → List Event → ℕ
released r [] = 0
released r (acquire q ∷ t) = released r t
released r (release q ∷ t) = (if same r q then 1 else 0) + released r t

-- When `strela_gem_create` fails, whatever it acquired is released exactly once; when it
-- succeeds, it holds one of each resource: the structure, the object and the DMA memory.
pub strela_gem_create-balanced :
    (r : CreateReplies) (q : Resource)
    → let (result, trace) = strela_gem_create r in
      ((e : Errno) → result ≡ some e → acquired q trace ≡ released q trace)
      × (result ≡ none → (acquired q trace ≡ 1) × (released q trace ≡ 0))
unfolding strela_gem_create
strela_gem_create-balanced r memory = (λ e h. ground arith, λ h. ground arith)
strela_gem_create-balanced r object_base = (λ e h. ground arith, λ h. ground arith)
strela_gem_create-balanced r mapping = (λ e h. ground arith, λ h. ground arith)
