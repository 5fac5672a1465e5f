-- ===== src/Uapi.antt =====
-- The structures that the library and the driver share (include/uapi/strela_drm.h). Offsets and
-- counts are in words of 4 bytes; every field is a `__u32` unless it is said otherwise.
use strela_pynq.Base.{ℕ, List}

abbrev pub word_size : ℕ
word_size = 4

abbrev pub num_io_cols : ℕ
num_io_cols = 4

-- drm_strela_gem_new: `size` and `offset` are `__u64`; `handle` and `offset` are outputs.
pub record GemNew : Type 0 where
  pub size : ℕ
  pub flags : ℕ
  pub handle : ℕ
  pub offset : ℕ

abbrev pub sync_read : ℕ
sync_read = 1

abbrev pub sync_write : ℕ
sync_write = 2

abbrev pub sync_rw : ℕ
sync_rw = 3

abbrev pub sync_prep : ℕ
sync_prep = 0

abbrev pub sync_fini : ℕ
sync_fini = 4

abbrev pub sync_valid_flags_mask : ℕ
sync_valid_flags_mask = 7

-- drm_strela_gem_sync: `offset` and `length` are `__u64`, in bytes.
pub record GemSync : Type 0 where
  pub handle : ℕ
  pub flags : ℕ
  pub offset : ℕ
  pub length : ℕ

-- drm_strela_binding
pub record Binding : Type 0 where
  pub handle : ℕ
  pub offset : ℕ
  pub count : ℕ

-- drm_strela_strided_binding
pub record StridedBinding : Type 0 where
  pub handle : ℕ
  pub offset : ℕ
  pub count : ℕ
  pub stride : ℕ

abbrev pub submit_wait_syncobj : ℕ
submit_wait_syncobj = 1

-- drm_strela_submit: `inputs` and `outputs` have `num_io_cols` entries.
pub record Submit : Type 0 where
  pub config : Binding
  pub inputs : List StridedBinding
  pub outputs : List Binding
  pub out_syncobj : ℕ
  pub flags : ℕ
  pub in_syncobj : ℕ
  pub pad : ℕ
