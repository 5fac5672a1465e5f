-- ===== src/Job/Status.antt =====
-- The status of a sync object's fence (lib/strela.c, `ioctl_syncobj_status`): a descriptor is made
-- for the fence, asked, and closed.
use strela_pynq.Base.{ℕ, zero, suc, List, [], ◌∷◌, ℤ, pos, negsuc}
use strela_pynq.Device.{Reply, done, fail, Call, export_fence, fence_info, close_fd}

-- `-errno`
abbrev pub negated : ℕ → ℤ
negated zero = pos 0
negated (suc n) = negsuc n

abbrev pub info_result : Reply ℤ → ℤ
info_result (done status) = status
info_result (fail errno) = negated errno

status_exported : (handle : ℕ) → Reply ℤ → Reply ℤ → ℤ × List Call
status_exported handle (fail errno) info = (negated errno, export_fence handle ∷ [])
status_exported handle (done fd) info =
    (info_result info, export_fence handle ∷ fence_info fd ∷ close_fd fd ∷ [])

-- What DRM_IOCTL_SYNCOBJ_HANDLE_TO_FD and SYNC_IOC_FILE_INFO answer, the descriptor and the fence's
-- status; the calls made are in order.
unfoldable pub ioctl_syncobj_status : (handle : ℕ) (exported info : Reply ℤ) → ℤ × List Call
unfolding status_exported
ioctl_syncobj_status handle exported info = status_exported handle exported info

-- How a query ends: the descriptor is made, asked once and closed, or there is none.
pub data Queries (handle : ℕ) (info : Reply ℤ) : Reply ℤ → ℤ × List Call → Type 0 where
  asked :
      {fd : ℤ}
      → Queries handle info
          (done fd)
          (info_result info, export_fence handle ∷ fence_info fd ∷ close_fd fd ∷ [])
  not_exported :
      {errno : ℕ} → Queries handle info (fail errno) (negated errno, export_fence handle ∷ [])

-- The descriptor that the export makes, and only that, is closed, whatever the query answers.
ioctl_syncobj_status-Queries :
    (handle : ℕ) (exported info : Reply ℤ)
    → Queries handle info exported (ioctl_syncobj_status handle exported info)
unfolding ioctl_syncobj_status status_exported
ioctl_syncobj_status-Queries handle (done fd) info = asked
ioctl_syncobj_status-Queries handle (fail errno) info = not_exported
