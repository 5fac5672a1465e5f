-- ===== src/Tests/Gems.antt =====
-- New buffer objects at concrete requests.
use strela_pynq.Base.{arith, true, false, none}
use strela_pynq.Uapi.{GemNew}
use strela_pynq.Driver.Binding.{enomem}
use strela_pynq.Driver.Gem.{CreateReplies}
use strela_pynq.Driver.Gem.New.{no_handle, strela_gem_new_ioctl}
use strela_pynq.Driver.Gem.New.Holds.{News, strela_gem_new_ioctl-News}

abbrev five_thousand : GemNew
five_thousand = record { size = 5000; flags = 0; handle = 0; offset = 0 }

abbrev all_there : CreateReplies
all_there = record {
  has_memory = true;
  init = none;
  mmap_offset = none;
  has_pages = true;
  mapping_error = false;
}

-- The object is made, but there is no handle for it.
strela_gem_new_ioctl-News_example :
    News five_thousand 65536
      (no_handle enomem)
      (strela_gem_new_ioctl five_thousand all_there 65536 (no_handle enomem))
strela_gem_new_ioctl-News_example =
    strela_gem_new_ioctl-News five_thousand all_there 65536 (no_handle enomem) (omega arith)
