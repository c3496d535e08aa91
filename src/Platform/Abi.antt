-- ===== src/Platform/Abi.antt =====
-- The constants that src/ioctl_hook.c takes from nvos.h, nv_escape.h, nvstatus.h, ctrl2080fb.h,
-- g_allclasses.h, errno.h and ioctl.h, none of which is in the repository. What is known of them is
-- that the labels of one `switch` differ, which the C compiler checks, and that an errno is positive.
use nv_resource_controller.Prelude.{ℕ, ◌<◌, ◌^◌, ◌≡◌, ◌≢◌}

pub record Abi : Type 0 where
  -- errno.h
  pub einval : ℕ
  pub enomem : ℕ
  pub einval_pos : 0 < einval
  pub enomem_pos : 0 < enomem
  -- _IOC_NR of ioctl.h
  pub ioc_nr : ℕ → ℕ
  -- nv_escape.h
  pub esc_rm_vid_heap_control : ℕ
  pub esc_rm_control : ℕ
  pub esc_rm_free : ℕ
  pub esc_rm_alloc : ℕ
  pub heap_control-ne-control : esc_rm_vid_heap_control ≢ esc_rm_control
  pub heap_control-ne-free : esc_rm_vid_heap_control ≢ esc_rm_free
  pub heap_control-ne-alloc : esc_rm_vid_heap_control ≢ esc_rm_alloc
  pub control-ne-free : esc_rm_control ≢ esc_rm_free
  pub control-ne-alloc : esc_rm_control ≢ esc_rm_alloc
  pub free-ne-alloc : esc_rm_free ≢ esc_rm_alloc
  -- nvstatus.h
  pub nv_ok : ℕ
  pub nv_err_no_memory : ℕ
  pub no_memory-ne-ok : nv_err_no_memory ≢ nv_ok
  -- nvos.h: NVOS32_FUNCTION_*
  pub function_alloc_size : ℕ
  pub function_info : ℕ
  pub alloc_size-ne-info : function_alloc_size ≢ function_info
  -- g_allclasses.h: NV01_DEVICE_0, NV20_SUBDEVICE_0, NV01_MEMORY_LOCAL_USER
  pub class_device : ℕ
  pub class_subdevice : ℕ
  pub class_memory_local_user : ℕ
  pub device-ne-subdevice : class_device ≢ class_subdevice
  pub device-ne-memory : class_device ≢ class_memory_local_user
  pub subdevice-ne-memory : class_subdevice ≢ class_memory_local_user
  -- ctrl2080fb.h
  pub cmd_fb_get_info : ℕ
  pub cmd_fb_get_info_v2 : ℕ
  pub get_info-ne-get_info_v2 : cmd_fb_get_info ≢ cmd_fb_get_info_v2
  -- a `size_t` as the type of `info->data` holds it
  pub to_data : ℕ → ℕ
  pub to_data-self : (n : ℕ) → n < 2 ^ 32 → to_data n ≡ n
  pub index_total_ram_size : ℕ
  pub index_heap_size : ℕ
  pub index_heap_free : ℕ
  pub total_ram-ne-heap_size : index_total_ram_size ≢ index_heap_size
  pub total_ram-ne-heap_free : index_total_ram_size ≢ index_heap_free
  pub heap_size-ne-heap_free : index_heap_size ≢ index_heap_free
