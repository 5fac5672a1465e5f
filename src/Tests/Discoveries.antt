-- ===== src/Tests/Discoveries.antt =====
-- The search for devices at a concrete directory.
use strela_pynq.Base.{◌==◌, ◌≡◌, true, false, [], ◌∷◌, length, Returns}
use strela_pynq.Device.{Reply, done, fail}
use strela_pynq.Discovery.{Dir, strela_dev_count, find_device}
use strela_pynq.Discovery.Search.{
  devices, Balanced, listing, listing_errno, strela_dev_count-devices,
}
use strela_pynq.Discovery.Find.{Sought, find_device-Sought}

-- `.`, a device that does not open, another driver's, and two of ours.
abbrev accel : Reply Dir
accel = done (record {
  entries =
      record { dotted = true; opens = fail 21; is_strela = fail 25 }
      ∷ record { dotted = false; opens = fail 13; is_strela = fail 25 }
      ∷ record { dotted = false; opens = done 4; is_strela = done false }
      ∷ record { dotted = false; opens = done 4; is_strela = done true }
      ∷ record { dotted = false; opens = done 5; is_strela = done true }
      ∷ [];
  end_errno = 0;
})

strela_dev_count-devices_example :
    Returns
      (λ r.
        (r.0 ≡ (listing_errno accel == 0))
        × (r.1 ≡ length (devices (listing accel)))
        × Balanced r.2)
      (strela_dev_count accel)
strela_dev_count-devices_example = strela_dev_count-devices accel

find_device-Sought_example : Returns (Sought (devices (listing accel)) 1 []) (find_device accel 1)
find_device-Sought_example = find_device-Sought accel 1
