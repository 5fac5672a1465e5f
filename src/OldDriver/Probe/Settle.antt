-- ===== src/OldDriver/Probe/Settle.antt =====
-- What the first driver's probe and its module's start leave held (driver/strela_driver.c).
use strela_pynq.Base.{
  ℕ, ◌+◌, ◌==◌, ◌≡◌, ◌⊎◌, inl, inr, refl, arith, Bool, true, false, Bool-cases, List, [], ◌∷◌, ◌++◌,
  Option, none, some, u32, Step, acquire, Answer, given, failed, Leaves, done, takes, gives,
  first_error,
}
use strela_pynq.OldDriver.{Error, enomem, eio, passed}
use strela_pynq.OldDriver.Probe.{
  Resource, dma_pages, char_dev, logical_dev, minor_number, chrdev_region, device_class,
  platform_driver, ProbeAnswers, CallResult, strela_probe, strela_remove, strela_driver_init,
  strela_driver_exit, probe_mapped, probe_pages, probe_irq, probe_request, probe_minor, probe_cdev,
  probe_device, init_region, init_class, init_driver,
}

-- The results that decide a probe, in order: of the memory, the mapping, the adder's challenge, the DMA
-- pages, the interrupt's number and handler, the minor number, cdev_add and device_create.
abbrev unless_given : Bool → Error → Option Error
unless_given true e = none
unless_given false e = some e

abbrev if_failed : Option ℕ → Option Error
if_failed none = none
if_failed (some e) = some (passed e)

abbrev answer_error : Answer → Option Error
answer_error (given n) = none
answer_error (failed e) = some (passed e)

abbrev pub probe_results : ProbeAnswers → List (Option Error)
probe_results a =
    unless_given a.allocated enomem
    ∷ if_failed a.map_error
    ∷ unless_given (a.response == u32 (a.challenge1 + a.challenge2)) eio
    ∷ unless_given a.pages enomem
    ∷ answer_error a.irq
    ∷ if_failed a.request_error
    ∷ answer_error a.minor
    ∷ if_failed a.cdev_error
    ∷ if_failed a.device_error
    ∷ []

-- The two answers of the interrupt's setup that end a probe.
abbrev pub NoIrq : ProbeAnswers → Type 0
NoIrq a = ((e : ℕ) × (a.irq ≡ failed e)) ⊎ ((e : ℕ) × (a.request_error ≡ some e))

-- A probe comes as far as the interrupt, its pages allocated, and is refused it.
pub record StopsAtIrq (a : ProbeAnswers) : Type 0 where
  pub allocated : a.allocated ≡ true
  pub mapped : a.map_error ≡ none
  pub adds : a.response ≡ u32 (a.challenge1 + a.challenge2)
  pub pages : a.pages ≡ true
  pub no_irq : NoIrq a

pub data Probes (a : ProbeAnswers) : CallResult → Type 0 where
  loaded :
      (minor : ℕ) {trace : List (Step Resource)}
      → a.response ≡ u32 (a.challenge1 + a.challenge2)
      → Leaves [] trace (logical_dev ∷ char_dev ∷ minor_number minor ∷ dma_pages ∷ [])
      → Leaves [] (trace ++ strela_remove minor) []
      → Probes a (none, trace)
  undone :
      {e : Error} {trace : List (Step Resource)}
      → ¬ StopsAtIrq a
      → Leaves [] trace []
      → Probes a (some e, trace)
  leaked :
      {e : Error} {trace : List (Step Resource)}
      → StopsAtIrq a
      → Leaves [] trace (dma_pages ∷ [])
      → Probes a (some e, trace)

module _ (a : ProbeAnswers) (adds : a.response ≡ u32 (a.challenge1 + a.challenge2)) where
  module _ (irq_set : ¬ NoIrq a) where
    past_irq : ¬ StopsAtIrq a
    past_irq s = irq_set s.no_irq

    device-Probes :
        (minor : ℕ) (device_error : Option ℕ)
        → Probes a (
          (probe_device minor device_error).0,
          acquire dma_pages
              ∷ acquire (minor_number minor)
              ∷ acquire char_dev
              ∷ (probe_device minor device_error).1,
        )
    unfolding probe_device strela_remove
    device-Probes minor none =
        loaded minor adds (takes (takes (takes (takes done))))
          (takes (takes (takes (takes (gives (gives (gives (gives done))))))))
    device-Probes minor (some e) =
        undone past_irq (takes (takes (takes (gives (gives (gives done))))))

    cdev-Probes :
        (minor : ℕ) (cdev_error device_error : Option ℕ)
        → Probes a (
          (probe_cdev minor cdev_error device_error).0,
          acquire dma_pages
              ∷ acquire (minor_number minor)
              ∷ (probe_cdev minor cdev_error device_error).1,
        )
    unfolding probe_cdev
    cdev-Probes minor none device_error = device-Probes minor device_error
    cdev-Probes minor (some e) device_error = undone past_irq (takes (takes (gives (gives done))))

    minor-Probes :
        (answer : Answer)
        → Probes a ((probe_minor answer a).0, acquire dma_pages ∷ (probe_minor answer a).1)
    unfolding probe_minor
    minor-Probes (given minor) = cdev-Probes minor a.cdev_error a.device_error
    minor-Probes (failed e) = undone past_irq (takes (gives done))

  module _ (has_memory : a.allocated ≡ true) (mapped : a.map_error ≡ none) where
    module _ (has_pages : a.pages ≡ true) where
      stops : NoIrq a → StopsAtIrq a
      stops refused = record {
        allocated = has_memory;
        mapped = mapped;
        adds = adds;
        pages = has_pages;
        no_irq = refused;
      }

      request-Probes :
          (answer : Option ℕ) (irq : ℕ)
          → a.irq ≡ given irq
          → a.request_error ≡ answer
          → Probes a ((probe_request answer a).0, acquire dma_pages ∷ (probe_request answer a).1)
      unfolding probe_request
      request-Probes none irq at is = minor-Probes irq_set a.minor
        where
          irq_set : ¬ NoIrq a
          irq_set (inl (e, no_irq)) = cc
          irq_set (inr (e, no_handler)) = cc
      request-Probes (some e) irq at is = leaked (stops (inr (e, is))) (takes done)

      irq-Probes :
          (answer : Answer)
          → a.irq ≡ answer
          → Probes a ((probe_irq answer a).0, acquire dma_pages ∷ (probe_irq answer a).1)
      unfolding probe_irq
      irq-Probes (given irq) is = request-Probes a.request_error irq is refl
      irq-Probes (failed e) is = leaked (stops (inl (e, is))) (takes done)

    pages-Probes : (answer : Bool) → a.pages ≡ answer → Probes a (probe_pages answer a)
    unfolding probe_pages
    pages-Probes false is = undone (λ s. absurd cc) done
    pages-Probes true is = irq-Probes is a.irq refl

mapped-Probes :
    (a : ProbeAnswers) (answer : Option ℕ)
    → a.allocated ≡ true
    → a.map_error ≡ answer
    → Probes a (probe_mapped answer a)
unfolding probe_mapped
mapped-Probes a none has_memory is =
    elim (Bool-cases (a.response == u32 (a.challenge1 + a.challenge2))) [
      | inl adds ↦ rw adds (pages-Probes a (ground (arith, adds)) has_memory is a.pages refl)
      | inr wrong ↦ rw wrong (undone (λ s. absurd (ground (arith, wrong, s.adds))) done)
    ]
mapped-Probes a (some e) has_memory is = undone (λ s. absurd cc) done

probe_settles : (a : ProbeAnswers) → Probes a (strela_probe a)
unfolding strela_probe
probe_settles a = elim (Bool-cases a.allocated) [
  | inl has_memory ↦ simp (has_memory) (mapped-Probes a a.map_error has_memory refl)
  | inr no_memory ↦ simp (no_memory) (undone (λ s. absurd cc) done)
]

minor-first_error :
    (answer : Answer) (a : ProbeAnswers)
    → (probe_minor answer a).0
      ≡ first_error (answer_error answer ∷ if_failed a.cdev_error ∷ if_failed a.device_error ∷ [])
unfolding probe_minor probe_cdev probe_device
minor-first_error answer a = ground arith

pages-first_error :
    (a : ProbeAnswers)
    → (probe_pages a.pages a).0
      ≡ first_error (
          unless_given a.pages enomem
          ∷ answer_error a.irq
          ∷ if_failed a.request_error
          ∷ answer_error a.minor
          ∷ if_failed a.cdev_error
          ∷ if_failed a.device_error
          ∷ [])
unfolding probe_pages probe_irq probe_request
pages-first_error a = ground (arith, minor-first_error a.minor a)

-- A probe returns the first error among its results, in order, and 0 where there is none. If it succeeds
-- it saw the adder's right answer and holds four resources, which `strela_remove` gives back, each the
-- latest first. If it fails it holds nothing, with one exception: where it has got its memory, its
-- mapping, the right answer and the DMA pages, and the interrupt's number or its handler is refused,
-- it still holds the DMA pages.
pub strela_probe-Probes :
    (a : ProbeAnswers)
    → ((strela_probe a).0 ≡ first_error (probe_results a)) × Probes a (strela_probe a)
unfolding strela_probe probe_mapped
strela_probe-Probes a = (ground (arith, pages-first_error a), probe_settles a)

pub data Starts : CallResult → Type 0 where
  started :
      {trace : List (Step Resource)}
      → Leaves [] trace (platform_driver ∷ device_class ∷ chrdev_region ∷ [])
      → Leaves [] (trace ++ strela_driver_exit) []
      → Starts (none, trace)
  undone : {e : Error} {trace : List (Step Resource)} → Leaves [] trace [] → Starts (some e, trace)

-- The module's start either succeeds and holds the region of device numbers, the class and the
-- driver, which `strela_driver_exit` gives back in the reverse order, or fails and holds nothing.
pub strela_driver_init-Starts :
    (region_error class_error driver_error : Option ℕ)
    → Starts (strela_driver_init region_error class_error driver_error)
unfolding strela_driver_init strela_driver_exit init_region init_class init_driver
strela_driver_init-Starts (some e) class_error driver_error = undone done
strela_driver_init-Starts none (some e) driver_error = undone (takes (gives done))
strela_driver_init-Starts none none (some e) = undone (takes (takes (gives (gives done))))
strela_driver_init-Starts none none none =
    started (takes (takes (takes done))) (takes (takes (takes (gives (gives (gives done))))))
