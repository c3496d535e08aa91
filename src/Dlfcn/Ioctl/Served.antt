-- ===== src/Dlfcn/Ioctl/Served.antt =====
-- How the system answers a call of the exported `ioctl`, and what its check before the driver leaves.
use nv_resource_controller.Prelude.{
  ℕ, ◌%◌, ◌^◌, ◌≡◌, refl, sym, ◌∙◌, Bool, true, false, ◌&&◌, ◌==◌, if◌then◌else◌, some, arith,
  subst, Bool-cases, inl, inr,
}
use nv_resource_controller.Prelude.Int.{ℤ}
use nv_resource_controller.Prelude.Run.{Returns}
use nv_resource_controller.Platform.{Platform}
use nv_resource_controller.Hook.Types.{FbInfo}
use nv_resource_controller.Hook.Memory.{Memory}
use nv_resource_controller.Util.ShmAddr.Up.{IsUp}
use nv_resource_controller.Ioctl.Params.{Arg, AllocParms, AllocParams, HeapParams}
use nv_resource_controller.Ioctl.Account.{IsSteady, IsReady-Inv}
use nv_resource_controller.Ioctl.Ledger.{ledger}
use nv_resource_controller.Ioctl.Alloc.Steady.{IsFresh}
use nv_resource_controller.Ioctl.Pre.{refused, pre_ioctl, pre_heap, pre_alloc}
use nv_resource_controller.Ioctl.Pre.Check.{exceeds, pre_vid_heap_alloc_lem, pre_rm_alloc_lem}
use nv_resource_controller.Ioctl.Post.Steady.{IsFormed, IsGranted, IsGranted-IsFormed}
use nv_resource_controller.Dlfcn.Ioctl.{Calls, Driver}

-- The driver gives back a well-formed block for a well-formed one.
abbrev pub KeepsForm : Driver → Type 0
KeepsForm driver = (fd cmd : ℕ) (arg : Arg) → IsFormed arg → IsFormed (driver fd cmd arg).1

-- The system at a call: `malloc` gives `p`, the calls on shared memory succeed, and the driver keeps
-- blocks well formed.
pub record IsServed (sys : Calls) (driver : Driver) (p : ℕ) : Type 0 where
  pub malloc : sys.fresh ≡ some p
  pub up : IsUp sys.fb.shm_calls
  pub keeps : KeepsForm driver

-- The block is a request that the check lets through, if it is one for memory at all.
pub record IsChecked (os : Platform) (fb : FbInfo) (cmd : ℕ) (arg : Arg) : Type 0 where
  pub heap :
      os.abi.ioc_nr cmd ≡ os.abi.esc_rm_vid_heap_control
      → arg.os32.function ≡ os.abi.function_alloc_size
      → exceeds arg.os32.alloc_size.size arg.os32.alloc_size.alignment fb ≡ false
  pub alloc :
      os.abi.ioc_nr cmd ≡ os.abi.esc_rm_alloc
      → arg.os21.h_class ≡ os.abi.class_memory_local_user
      → (parms : AllocParms) → arg.os21.p_alloc_parms ≡ some parms
      → exceeds parms.as_memory.size parms.as_memory.alignment fb ≡ false

-- Of a request that has been let through with `fb` the account, the driver grants at most `b` bytes.
abbrev pub Trusts : (os : Platform) → (b : ℕ) → FbInfo → Driver → Type 0
Trusts os b fb driver =
    (fd cmd : ℕ) (arg : Arg)
    → IsFormed arg
    → IsChecked os fb (cmd % 2 ^ 32) arg
    → IsGranted os b (cmd % 2 ^ 32) (driver fd cmd arg).1

-- What a call is given: a steady account, an address that `malloc` may return, a well-formed block.
abbrev pub Given : {os : Platform} → (k q p : ℕ) → Arg → Memory os → Type 0
Given k q p arg m = IsSteady k q m × IsFresh (some p) m × IsFormed arg

-- What the driver grants is a word.
pub Trusts-KeepsForm :
    (os : Platform) (fb : FbInfo) (driver : Driver)
    → KeepsForm driver
    → Trusts os (2 ^ 64) fb driver
Trusts-KeepsForm os fb driver keeps fd cmd arg w c =
    IsGranted-IsFormed os (cmd % 2 ^ 32) (driver fd cmd arg).1 (keeps fd cmd arg w)

second_false : (a b : Bool) → (a && b) ≡ false → a ≡ true → b ≡ false
second_false true b h e = h
second_false false b h e = cc

-- What the check has answered, where it has not refused.
let_through :
    (api : HeapParams) (alloc no_memory : ℕ) (fb : FbInfo)
    → let low : Bool =
        (api.function == alloc) && exceeds api.alloc_size.size api.alloc_size.alignment fb in
      let answer : HeapParams = if low then refused no_memory api fb else api in
      low ≡ false
      → answer.function ≡ alloc
      → exceeds answer.alloc_size.size answer.alloc_size.alignment fb ≡ false
let_through api alloc no_memory fb passed e =
    let same_function : (api.function ≡ alloc) =
      subst (λ low. (if low then refused no_memory api fb else api).function ≡ alloc) passed e in
    rw passed (second_false (api.function == alloc) _ passed (ground arith))

let_through_alloc :
    (api : AllocParams) (read : AllocParms) (class no_memory : ℕ) (fb : FbInfo)
    → api.p_alloc_parms ≡ some read
    → let low : Bool =
        (api.h_class == class) && exceeds read.as_memory.size read.as_memory.alignment fb in
      let answer : AllocParams = if low then record api { status = no_memory } else api in
      low ≡ false
      → answer.h_class ≡ class
      → (parms : AllocParms) → answer.p_alloc_parms ≡ some parms
      → exceeds parms.as_memory.size parms.as_memory.alignment fb ≡ false
let_through_alloc api read class no_memory fb there passed e parms e' =
    let same_class : (api.h_class ≡ class) =
      subst (λ low. (if low then record api { status = no_memory } else api).h_class ≡ class) passed
        e in
    let again : (api.p_alloc_parms ≡ some parms) =
      subst
        (λ low. (if low then record api { status = no_memory } else api).p_alloc_parms ≡ some parms)
        passed e' in
    let read_again : (some read ≡ some parms) = sym there ∙ again in
    let same_parms : (read ≡ parms) = cc in
    subst (λ x. exceeds x.as_memory.size x.as_memory.alignment fb ≡ false) same_parms
      (second_false (api.h_class == class) _ passed (ground arith))

module _ {os : Platform} {k q : ℕ} (p : ℕ) (m : Memory os) (s : IsSteady k q m)
    (f : IsFresh (some p) m) where
  -- What the check leaves: the memory as it was, and a block that is still well formed and, where the
  -- call goes on, has been let through.
  abbrev pub Checked : (cmd : ℕ) → ℤ × Arg × Bool → Memory os → Type 0
  Checked cmd r m' =
      IsSteady k q m'
      × IsFresh (some p) m'
      × IsFormed r.1
      × (ledger m' ≡ ledger m)
      × (r.2 ≡ false → IsChecked os s.1.fb cmd r.1)

  pre_heap-Checked :
      (cmd : ℕ) (arg : Arg)
      → os.abi.ioc_nr cmd ≡ os.abi.esc_rm_vid_heap_control
      → IsFormed arg
      → Returns (Checked cmd) (pre_heap arg m)
  unfolding pre_heap
  pre_heap-Checked cmd arg c w = rw (pre_vid_heap_alloc_lem arg.os32 (IsReady-Inv s.0 s.1)) (
    s,
    f,
    record { parms = w.parms; fits = w.fits; fits_v2 = w.fits_v2; word = ground arith },
    refl,
    λ low. record {
      heap =
          λ _. let_through arg.os32 os.abi.function_alloc_size os.abi.nv_err_no_memory s.1.fb low;
      alloc = λ c'. absurd (os.abi.heap_control-ne-alloc (sym c ∙ c'));
    },
  )

  pre_alloc-Checked :
      (cmd : ℕ) (arg : Arg)
      → os.abi.ioc_nr cmd ≡ os.abi.esc_rm_alloc
      → IsFormed arg
      → Returns (Checked cmd) (pre_alloc arg m)
  unfolding pre_alloc
  pre_alloc-Checked cmd arg c w =
      rw (pre_rm_alloc_lem arg.os21 w.parms.0 (IsReady-Inv s.0 s.1) w.parms.1) (
        s,
        f,
        record {
          parms = (w.parms.0, ground arith, w.parms.2);
          fits = w.fits;
          fits_v2 = w.fits_v2;
          word = w.word;
        },
        refl,
        λ low. record {
          heap = λ c'. absurd (os.abi.heap_control-ne-alloc (sym c' ∙ c));
          alloc = λ _.
              let_through_alloc arg.os21 w.parms.0 os.abi.class_memory_local_user
                os.abi.nv_err_no_memory s.1.fb w.parms.1 low;
        },
      )

  pub pre_ioctl-Checked :
      (cmd : ℕ) (arg : Arg) (success : Bool)
      → IsFormed arg
      → Returns (Checked cmd) (pre_ioctl cmd arg success m)
  unfolding pre_ioctl
  pre_ioctl-Checked cmd arg success w =
      elim (Bool-cases (os.abi.ioc_nr cmd == os.abi.esc_rm_vid_heap_control)) [
        | inl e ↦ rw e (pre_heap-Checked cmd arg (ground arith) w)
        | inr e ↦ elim (Bool-cases (os.abi.ioc_nr cmd == os.abi.esc_rm_alloc)) [
          | inl e' ↦ rw (e, e') (pre_alloc-Checked cmd arg (ground arith) w)
          | inr e' ↦
              rw (e, e')
                (
                  s,
                  f,
                  w,
                  refl,
                  λ _. record {
                    heap = λ c. absurd (ground (arith, c));
                    alloc = λ c. absurd (ground (arith, c));
                  },
                )
        ]
      ]
