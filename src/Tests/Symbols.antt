-- ===== src/Tests/Symbols.antt =====
-- The hooks of src/cuda_hook.c and `dlsym` with a concrete CUDA driver and linker.
use text.Mathlib.Text.{◌==◌ as str_eq}
use text.Mathlib.TextEquality.{eq_iff}
use Prim.Native.String.{String}
use nv_resource_controller.Prelude.{
  ℕ, ◌+◌, ◌≡◌, ◌≢◌, refl, true, false, Option, none, some, List, [], ◌∷◌, ◌==◌, if◌then◌else◌,
  arith,
}
use nv_resource_controller.Prelude.Int.{pos}
use nv_resource_controller.Prelude.Run.{Cmd, ok, pure}
use nv_resource_controller.Cuda.{
  EntryEnum, cu_get_proc_address, cu_get_proc_address_v2, cu_launch_kernel, cu_launch_kernel_ex,
  cu_launch_kernel_ptsz, cu_launch_kernel_ex_ptsz, entry_enum, symbol_of, hook_table, HookState,
  LaunchConfig, CudaDriver, Query, hook_cu_get_proc_address,
}
use nv_resource_controller.Cuda.Launch.Quota.{
  Launch, kernel, kernel_ex, launch_all, limited_state, launch_all_lem,
}
use nv_resource_controller.Cuda.Symbols.{
  remember, Finds, IsUnhooked, hook_cu_get_proc_address_hooked,
}
use nv_resource_controller.Dlfcn.Dlsym.{Found, Linker, DlState, handle, dlsym, get_next_symbol}
use nv_resource_controller.Dlfcn.Dlsym.Hooked.{found_at, dlsym_hooked}
use nv_resource_controller.Dlfcn.Dlsym.Next.{AllLoaded, first_definition, get_next_symbol_lem}

abbrev cuda : CudaDriver
cuda = record {
  get_proc_address = λ p q. (pos 0, some 900);
  get_proc_address_v2 = λ p q status. (pos 0, some 900, status);
  launch_kernel = λ p args. pos p;
  launch_kernel_ptsz = λ p args. pos p;
  launch_kernel_ex = λ p args. pos p;
  launch_kernel_ex_ptsz = λ p args. pos p;
}

abbrev hook : EntryEnum → ℕ
hook e = 100 + entry_enum e

abbrev real : EntryEnum → ℕ
real e = 200 + entry_enum e

abbrev dims : LaunchConfig
dims = record {
  grid_dim_x = 1;
  grid_dim_y = 1;
  grid_dim_z = 1;
  block_dim_x = 32;
  block_dim_y = 1;
  block_dim_z = 1;
}

abbrev launches : List (Launch × ℕ)
launches =
    (
      kernel (record {
        f = 7;
        dims = dims;
        shared_mem_bytes = 0;
        h_stream = 0;
        kernel_params = 0;
        extra = 0;
      }),
      2,
    )
    ∷ (kernel_ex (record { config = dims; f = 7; kernel_params = 0; extra = 0 }), 0)
    ∷ []

launch_all_lem_example :
    launch_all cuda launches (limited_state hook real 5 10)
    ≡ ok (pos 202 ∷ pos 203 ∷ []) (limited_state hook real 3 12)
launch_all_lem_example = launch_all_lem cuda hook real launches 5 10 (omega arith)

-- Only `cuGetProcAddress` has been found.
abbrev first_only : EntryEnum → Option ℕ
first_only e = if entry_enum e == 0 then some 200 else none

abbrev hooks : HookState
hooks = record {
  table = hook_table hook first_only;
  core_limited = true;
  tokens = 5;
  launch_times = some 0;
}

abbrev query : String → Query
query name = record { symbol = name; pfn = none; cuda_version = 12000; flags = 0 }

finds : (name : String) → Finds cuda hook first_only hooks (query name) 200 (some 900)
finds name = record { table = refl; entry = refl; answer = refl }

hook_cu_get_proc_address_hooked_example :
    hook_cu_get_proc_address cuda (query "cuLaunchKernel") hooks
    ≡ ok
        (pos 0, some 102)
        (record hooks { table = hook_table hook (remember cu_launch_kernel (some 900) first_only) })
hook_cu_get_proc_address_hooked_example =
    hook_cu_get_proc_address_hooked cuda hook first_only hooks (query "cuLaunchKernel") 200
      (some 900) cu_launch_kernel (finds "cuLaunchKernel") refl

differ : (s t : String) → str_eq s t ≡ false → s ≢ t
differ s t h e = cc ((eq_iff s t).1 e)

cu_init-IsUnhooked : IsUnhooked "cuInit"
cu_init-IsUnhooked cu_get_proc_address = differ (symbol_of cu_get_proc_address) "cuInit" refl
cu_init-IsUnhooked cu_get_proc_address_v2 = differ (symbol_of cu_get_proc_address_v2) "cuInit" refl
cu_init-IsUnhooked cu_launch_kernel = differ (symbol_of cu_launch_kernel) "cuInit" refl
cu_init-IsUnhooked cu_launch_kernel_ex = differ (symbol_of cu_launch_kernel_ex) "cuInit" refl
cu_init-IsUnhooked cu_launch_kernel_ptsz = differ (symbol_of cu_launch_kernel_ptsz) "cuInit" refl
cu_init-IsUnhooked cu_launch_kernel_ex_ptsz =
    differ (symbol_of cu_launch_kernel_ex_ptsz) "cuInit" refl

abbrev found : Found
found = record { dlopen = true; dlsym = true; dlclose = true; dladdr = true }

-- The application at 1000, the library at 2000 and libc at 500.
abbrev linker : Linker
linker = record {
  library_name = "libnvcontrol.so";
  dli_fname = none;
  dlopen = λ name. some (if str_eq name "libc.so" then 3 else 1);
  dlsym = λ h name. if h == 3 then some 5000 else none;
  chain = λ h.
      record { l_name = "high.so"; l_addr = 9000 }
      ∷ record { l_name = "libnvcontrol.so"; l_addr = 1000 }
      ∷ record { l_name = "libm.so"; l_addr = 800 }
      ∷ record { l_name = "libc.so"; l_addr = 500 }
      ∷ [];
}

abbrev state : DlState
state = record { hooks = hooks; handles = 0 }

abbrev init : Cmd DlState Found
init = pure found

dlsym_hooked_example :
    dlsym found init linker 1200 (handle 3) "cuLaunchKernel" state
    ≡ ok (some 102) (record state {
      hooks = record hooks { table = hook_table hook (found_at cu_launch_kernel 5000 first_only) };
    })
dlsym_hooked_example =
    dlsym_hooked found init linker 1200 3 hook first_only state refl refl cu_launch_kernel 5000 refl

loaded : AllLoaded linker (linker.chain 1)
loaded = ((1, refl), ((1, refl), ((1, refl), ((3, refl), tt))))

get_next_symbol_lem_example : get_next_symbol found linker 1200 "ioctl" state ≡ ok (some 5000) state
unfolding first_definition
get_next_symbol_lem_example = get_next_symbol_lem linker 1200 "ioctl" found 1 state refl refl loaded
