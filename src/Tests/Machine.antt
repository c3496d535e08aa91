-- ===== src/Tests/Machine.antt =====
-- A platform with plain lists, one limited process with 1 MiB on device 0, and a driver that grants
-- whatever it is asked for.
use nv_resource_controller.Prelude.{
  ℕ, ◌+◌, ◌*◌, ◌/◌, ◌%◌, ◌^◌, refl, true, false, Option, none, some, List, [], ◌∷◌, arith, ◌==◌,
  if◌then◌else◌,
}
use nv_resource_controller.Prelude.Int.{pos}
use nv_resource_controller.Prelude.Run.{Cmd, pure}
use nv_resource_controller.Platform.{Platform}
use nv_resource_controller.Platform.Abi
use nv_resource_controller.Platform.ListApi.{ListApi, remove}
use nv_resource_controller.Hook.Types.{DeviceMem, RmMem, FbInfo}
use nv_resource_controller.Hook.Memory.{missing, holds, update, Memory}
use nv_resource_controller.Util.ShmAddr.{ShmCalls}
use nv_resource_controller.Util.DeviceNumber.{StatCalls}
use nv_resource_controller.Ioctl.Params.{
  HeapParams, AllocParams, AllocParms, ControlParams, FreeParams, FbList, Arg,
}
use nv_resource_controller.Dlfcn.Ioctl.{Calls, Driver}

abbrev pub plain : (A : Type 0) → ListApi A
plain A = record {
  Chain = List (ℕ × A);
  entries = λ c. c;
  init_list_head = [];
  list_add = λ p a c. (p, a) ∷ c;
  list_del = λ p c. remove p c;
  entries-init = refl;
  entries-add = λ p a c new. refl;
  entries-del = λ p c d h. refl;
}

abbrev pub abi : Abi.Abi
abi = record {
  einval = 22;
  enomem = 12;
  einval_pos = omega arith;
  enomem_pos = omega arith;
  ioc_nr = λ n. n % 256;
  esc_rm_vid_heap_control = 0x4a;
  esc_rm_control = 0x2a;
  esc_rm_free = 0x29;
  esc_rm_alloc = 0x2b;
  heap_control-ne-control = omega arith;
  heap_control-ne-free = omega arith;
  heap_control-ne-alloc = omega arith;
  control-ne-free = omega arith;
  control-ne-alloc = omega arith;
  free-ne-alloc = omega arith;
  nv_ok = 0;
  nv_err_no_memory = 0x51;
  no_memory-ne-ok = omega arith;
  function_alloc_size = 2;
  function_info = 14;
  alloc_size-ne-info = omega arith;
  class_device = 0x80;
  class_subdevice = 0x2080;
  class_memory_local_user = 0x40;
  device-ne-subdevice = omega arith;
  device-ne-memory = omega arith;
  subdevice-ne-memory = omega arith;
  cmd_fb_get_info = 0x20801301;
  cmd_fb_get_info_v2 = 0x20801303;
  get_info-ne-get_info_v2 = omega arith;
  to_data = λ n. n % 2 ^ 32;
  to_data-self = λ n h. omega arith;
  index_total_ram_size = 7;
  index_heap_size = 9;
  index_heap_free = 10;
  total_ram-ne-heap_size = omega arith;
  total_ram-ne-heap_free = omega arith;
  heap_size-ne-heap_free = omega arith;
}

abbrev pub platform : Platform
platform = record { abi = abi; heap = plain DeviceMem; rm = plain RmMem }

abbrev pub account : FbInfo
account = record { pid = 7; total_mem = 0x10_0000; free_mem = 0x10_0000 }

abbrev pub memory : Memory platform
memory = record {
  dev = record {
    mu = false;
    major = 195;
    minor = 0;
    fb_info = some 0;
    alloc_mem = 0;
    mem_limited = true;
    core_limited = false;
    heap_mem_list = [];
    rm_mem_list = [];
  };
  shm = update (λ _. missing) 0 (holds account);
}

abbrev pub shm_calls : ShmCalls
shm_calls = record {
  fd = 3;
  excl_fails = false;
  open_fails = false;
  truncate_fails = false;
  map_fails = false;
}

-- The device numbers 195 and 255 on descriptor 4, a file otherwise.
abbrev pub stat_calls : StatCalls
stat_calls = record {
  fstat = λ fd.
      (pos 0, record { st_mode = if fd == 4 then 0x2000 else 0x8000; st_rdev = 195 * 256 + 255 });
  s_ifmt = 0xf000;
  s_ifchr = 0x2000;
  major = λ d. d / 256;
  minor = λ d. d % 256;
}

abbrev pub calls : Calls
calls = record {
  stat = stat_calls;
  fb = record { shm_calls = shm_calls; readlink = λ pid. pos 9 };
  fresh = some 1;
}

abbrev pub driver : Driver
driver fd cmd arg = (pos 0, arg)

abbrev pub init : Cmd (Memory platform) (Option Driver)
init = pure none

-- A request for `size` bytes on the heap, for handle 5.
abbrev pub heap_request : ℕ → ℕ → HeapParams
heap_request size alignment = record {
  function = 2;
  status = 0;
  total = 0;
  free = 0;
  alloc_size = record { h_memory = 5; size = size; alignment = alignment };
}

abbrev pub alloc_parms : ℕ → AllocParms
alloc_parms size = record {
  as_int = 0;
  as_memory = record { owner = 5; size = size; alignment = 256 };
}

abbrev pub alloc_request : ℕ → ℕ → AllocParams
alloc_request h_class size = record {
  h_object_parent = 1;
  h_object_new = 6;
  h_class = h_class;
  status = 0;
  p_alloc_parms = some (alloc_parms size);
}

abbrev pub free_request : ℕ → FreeParams
free_request handle = record { h_root = 1; h_object_parent = 2; h_object_old = handle; status = 0 }

abbrev pub fb_list : FbList
fb_list = record {
  fb_info_list_size = 2;
  fb_info_list = record { index = 9; value = 0 } ∷ record { index = 10; value = 0 } ∷ [];
}

abbrev pub control_request : ControlParams
control_request = record {
  h_object = 6;
  cmd = 0x20801301;
  status = 0;
  params = fb_list;
  params_v2 = fb_list;
}

abbrev pub block : ℕ → ℕ → Arg
block size alignment = record {
  os32 = heap_request size alignment;
  os21 = alloc_request 0x40 size;
  os54 = control_request;
  os00 = free_request 5;
}
