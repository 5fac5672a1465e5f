-- ===== src/Driver/Gem/New.antt =====
-- A new buffer object, and its end (driver/strela_gem.c, `strela_gem_new_ioctl`, `strela_gem_free`).
-- The object's references are counted: `drm_gem_object_init` makes the first, a handle holds one of
-- its own, and the last one put frees the object.
pub mod Holds
use strela_pynq.Base.{ℕ, ◌-◌, ◌==◌, Bool, true, false, List, ◌∷◌, Option, none, some, if◌then◌else◌}
use strela_pynq.Uapi.{GemNew}
use strela_pynq.Driver.Binding.{Errno}
use strela_pynq.Driver.Gem.{
  Resource, memory, object_base, mapping, Event, acquire, release, CreateReplies, strela_gem_create,
  NewCheck, bad, create, gem_new_check,
}

-- `import_attach` is whether the object is imported, `vaddr` whether it has DMA memory.
unfoldable pub strela_gem_free : (import_attach vaddr : Bool) → List Event → List Event
strela_gem_free import_attach vaddr trace =
    if import_attach
    then trace
    else release memory ∷ release object_base ∷ (if vaddr then release mapping ∷ trace else trace)

-- An object: its size, its references, and what was acquired and released for it, the latest first.
pub record NewObject : Type 0 where
  pub size : ℕ
  pub refs : ℕ
  pub trace : List Event

-- drm_gem_object_put, of an object that `strela_gem_create` made.
unfoldable pub object_put : NewObject → NewObject
object_put o =
    if o.refs == 1
    then record o { refs = 0; trace = strela_gem_free false true o.trace }
    else record o { refs = o.refs - 1 }

-- The answer of drm_gem_handle_create.
pub data HandleAnswer : Type 0 where
  no_handle : Errno → HandleAnswer
  handle : ℕ → HandleAnswer

-- What the ioctl returns, the handle and the offset that it writes, and the object, if one was made.
pub record NewResult : Type 0 where
  pub ret : Option Errno
  pub written : Option (ℕ × ℕ)
  pub object : Option NewObject

new_handle : (node_offset : ℕ) → NewObject → HandleAnswer → NewResult
new_handle node_offset o (no_handle e) = record {
  ret = some e;
  written = none;
  object = some (object_put o);
}
new_handle node_offset o (handle h) = record {
  ret = none;
  written = some (h, node_offset);
  object = some (object_put (record o { refs = 2 }));
}

-- Behind strela_gem_create, by its result and its trace.
new_object : (size node_offset : ℕ) → HandleAnswer → Option Errno × List Event → NewResult
new_object size node_offset answer (some e, trace) = record {
  ret = some e;
  written = none;
  object = some (record { size = size; refs = 0; trace = trace });
}
new_object size node_offset answer (none, trace) =
    new_handle node_offset (record { size = size; refs = 1; trace = trace }) answer

new_checked : CreateReplies → (node_offset : ℕ) → HandleAnswer → NewCheck → NewResult
new_checked replies node_offset answer (bad e) = record {
  ret = some e;
  written = none;
  object = none;
}
new_checked replies node_offset answer (create size) =
    new_object size node_offset answer (strela_gem_create replies)

-- `node_offset` is what drm_vma_node_offset_addr gives for the object.
unfoldable pub strela_gem_new_ioctl :
    GemNew → CreateReplies → (node_offset : ℕ) → HandleAnswer → NewResult
unfolding new_checked new_object new_handle
strela_gem_new_ioctl args replies node_offset answer =
    new_checked replies node_offset answer (gem_new_check args)
