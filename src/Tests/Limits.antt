-- ===== src/Tests/Limits.antt =====
-- `CUDA_MEM_LIMIT` set to `0=512M`, a file of two lines under `/proc`, and an interrupted sleep.
use nv_resource_controller.Prelude.{
  ℕ, ◌*◌, ◌^◌, ◌<◌, ◌≡◌, refl, false, none, some, [], ◌∷◌, ltb, lt→ltb, if◌then◌else◌, arith, ◌++◌,
  true, List,
}
use nv_resource_controller.Prelude.Int.{pos}
use nv_resource_controller.Prelude.Run.{ok}
use nv_resource_controller.Prelude.Text.{Text, c_string, starts_with, strstr}
use nv_resource_controller.Util.Iec.{Double}
use nv_resource_controller.Util.Iec.Units.{IsExact}
use nv_resource_controller.Util.Cgroup.{devices, get_cgroup_id}
use nv_resource_controller.Util.Cgroup.Name.{get_cgroup_id_lem}
use nv_resource_controller.Util.Cgroup.Short.{LeavesAtMost, get_cgroup_id_short}
use nv_resource_controller.Util.Wait.{Timespec, interrupted, wait_duration}
use nv_resource_controller.Util.Wait.Requests.{wait_duration_lem}
use nv_resource_controller.Env.{
  EnvCalls, cuda_mem_limit, cuda_core_limit, take_digits, get_mem_limit,
}
use nv_resource_controller.Env.Parsed.{get_mem_limit_lem}

-- Whole numbers for `double`
abbrev pub double : Double
double = record {
  W = ℕ;
  of_ulong = λ n. n;
  mul = λ a b. a * b;
  to_size_t = λ n. if ltb n (2 ^ 64) then some n else none;
  strtod = λ text. take_digits 0 text;
}

in_range : (n : ℕ) → n < 2 ^ 64 → (if ltb n (2 ^ 64) then some n else none) ≡ some n
in_range n h = rw (lt→ltb n (2 ^ 64) h) refl

pub double-IsExact : IsExact double
double-IsExact = record {
  mul_lem = λ n k small fits. refl;
  to_size_t_lem = λ n k small kb fits. in_range (n * 2 ^ k) fits;
}

-- "512M"
abbrev size_text : Text
size_text = 53 ∷ 49 ∷ 50 ∷ 77 ∷ []

abbrev pub env : EnvCalls
env = record {
  getenv =
      λ name. elim name [ cuda_mem_limit ↦ some (48 ∷ 61 ∷ size_text) | cuda_core_limit ↦ none ];
  atoi = λ text. pos 0;
}

pub scanned_size : take_digits 0 size_text ≡ (512, 77 ∷ [])
unfolding take_digits
scanned_size = refl

get_mem_limit_lem_example :
    get_mem_limit double env (record { minor = some 9; limit = none })
    ≡ ok (pos 0) (record { minor = some 0; limit = some (512 * 2 ^ 20) })
get_mem_limit_lem_example =
    get_mem_limit_lem double double-IsExact env 9 none 48 [] 53 (49 ∷ 50 ∷ 77 ∷ []) (77 ∷ []) 512
      refl (refl, tt) (omega arith) (refl, (refl, (refl, (refl, tt)))) (omega arith) scanned_size
      (omega arith) (omega arith)

-- "1:cpu:/a" and "2:devices:/k/ab", each with its newline and its 0
abbrev cpu_line : List ℕ
cpu_line = 49 ∷ 58 ∷ 99 ∷ 112 ∷ 117 ∷ 58 ∷ 47 ∷ 97 ∷ 10 ∷ 0 ∷ []

abbrev path : Text
path = 50 ∷ 58 ∷ devices ++ 58 ∷ 47 ∷ 107 ∷ []

other : strstr (c_string cpu_line) devices ≡ false
unfolding strstr c_string starts_with
other = refl

named : strstr (path ++ 47 ∷ 97 ∷ 98 ∷ 10 ∷ []) devices ≡ true
unfolding strstr starts_with
named = refl

get_cgroup_id_lem_example :
    get_cgroup_id (some (cpu_line ∷ (path ++ 47 ∷ 97 ∷ 98 ∷ 10 ∷ 0 ∷ 7 ∷ []) ∷ [])) 16 []
    ≡ ok (pos 0) (97 ∷ 98 ∷ 10 ∷ [])
get_cgroup_id_lem_example =
    get_cgroup_id_lem (cpu_line ∷ []) [] path (97 ∷ 98 ∷ []) (7 ∷ []) 16 [] (other, tt)
      (omega arith) named (omega arith) (omega arith) (omega arith) (omega arith)

get_cgroup_id_short_example : LeavesAtMost 2 [] (get_cgroup_id (some (cpu_line ∷ [])) 3 [])
get_cgroup_id_short_example = get_cgroup_id_short (some (cpu_line ∷ [])) 3 []

abbrev tick : ℕ → Timespec
tick n = record { tv_sec = 1; tv_nsec = n }

wait_duration_lem_example :
    wait_duration (tick 500) (interrupted (record { tv_sec = 0; tv_nsec = 70 }) ∷ []) []
    ≡ ok (pos 0) (tick 500 ∷ tick 70 ∷ [])
wait_duration_lem_example =
    wait_duration_lem (tick 500) (record { tv_sec = 0; tv_nsec = 70 } ∷ []) []
