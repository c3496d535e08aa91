-- ===== src/Dlfcn/Ioctl/Limit.antt =====
-- The limit on memory: what a process has recorded never comes to more than its quota.
use nv_resource_controller.Prelude.{
  ℕ, ◌+◌, ◌%◌, ◌^◌, ◌≤◌, ◌≡◌, ◌≢◌, sym, subst, ◌∙◌, false, Option, some, List, [], ◌∷◌, ◌++◌, arith,
}
use nv_resource_controller.Prelude.Int.{ℤ}
use nv_resource_controller.Prelude.Run.{Cmd, ok, Returns}
use nv_resource_controller.Platform.{Platform}
use nv_resource_controller.Hook.Types.{DeviceMem, FbInfo}
use nv_resource_controller.Hook.Memory.{Memory, holds}
use nv_resource_controller.Ioctl.Params.{Arg, AllocParms, AllocParams, HeapParams}
use nv_resource_controller.Ioctl.Account.{IsSteady, sizes, heap_entries}
use nv_resource_controller.Ioctl.Align.{align_up}
use nv_resource_controller.Ioctl.Ledger.{LedgerStep, same, charged, released, Moves, ledger}
use nv_resource_controller.Ioctl.Alloc.Steady.{IsFresh}
use nv_resource_controller.Ioctl.Pre.Check.{exceeds}
use nv_resource_controller.Ioctl.Post.Steady.{IsFormed}
use nv_resource_controller.Dlfcn.Ioctl.{Calls, Driver, ioctl}
use nv_resource_controller.Dlfcn.Ioctl.Served.{IsServed, Trusts}
use nv_resource_controller.Dlfcn.Ioctl.Moves.{ioctl-Moves}
use nv_resource_controller.Dlfcn.Ioctl.Ledgers.{total, total_lem}

-- A request on the heap, and what the driver has granted of it: no more than the request rounded up.
pub record HeapGrant (alloc : ℕ) (before after : HeapParams) : Type 0 where
  pub function : before.function ≡ alloc
  pub aligned : before.alloc_size.alignment ≢ 0
  pub size : after.alloc_size.size ≤ align_up before.alloc_size.size before.alloc_size.alignment

-- The same for a request for local memory.
pub record AllocGrant (class : ℕ) (before : AllocParams) (after : AllocParms) : Type 0 where
  pub h_class : before.h_class ≡ class
  pub parms : AllocParms
  pub there : before.p_alloc_parms ≡ some parms
  pub aligned : parms.as_memory.alignment ≢ 0
  pub size : after.as_memory.size ≤ align_up parms.as_memory.size parms.as_memory.alignment

-- The driver grants memory only where a request has asked for it, and no more than that rounded up to
-- its alignment.
pub record IsHonest (os : Platform) (driver : Driver) : Type 0 where
  pub heap :
      (fd cmd : ℕ) (arg : Arg)
      → IsFormed arg
      → os.abi.ioc_nr (cmd % 2 ^ 32) ≡ os.abi.esc_rm_vid_heap_control
      → (driver fd cmd arg).1.os32.function ≡ os.abi.function_alloc_size
      → (driver fd cmd arg).1.os32.status ≡ os.abi.nv_ok
      → (driver fd cmd arg).1.os32.alloc_size.alignment ≢ 0
      → HeapGrant os.abi.function_alloc_size arg.os32 (driver fd cmd arg).1.os32
  pub alloc :
      (fd cmd : ℕ) (arg : Arg) (parms : AllocParms)
      → IsFormed arg
      → os.abi.ioc_nr (cmd % 2 ^ 32) ≡ os.abi.esc_rm_alloc
      → (driver fd cmd arg).1.os21.h_class ≡ os.abi.class_memory_local_user
      → (driver fd cmd arg).1.os21.p_alloc_parms ≡ some parms
      → (driver fd cmd arg).1.os21.status ≡ os.abi.nv_ok
      → parms.as_memory.alignment ≢ 0
      → AllocGrant os.abi.class_memory_local_user arg.os21 parms

-- A request that the check lets through is for no more than what is free.
rounded_fits :
    (size alignment : ℕ) (fb : FbInfo)
    → alignment ≢ 0
    → exceeds size alignment fb ≡ false
    → align_up size alignment ≤ fb.free_mem
rounded_fits size alignment fb ne e = ground arith

Trusts-IsHonest :
    (os : Platform) (fb : FbInfo) (driver : Driver)
    → IsHonest os driver
    → Trusts os fb.free_mem fb driver
Trusts-IsHonest os fb driver h fd cmd arg w c = record {
  heap = λ e function status aligned.
      let g = h.heap fd cmd arg w e function status aligned in
      let fits = rounded_fits _ _ fb g.aligned (c.heap e g.function) in omega (arith, g.size, fits);
  alloc = λ e class parms there status aligned.
      let g = h.alloc fd cmd arg parms w e class there status aligned in
      let fits = rounded_fits _ _ fb g.aligned (c.alloc e g.h_class g.parms g.there) in
      omega (arith, g.size, fits);
}

total-append : (xs ys : List DeviceMem) → total (xs ++ ys) ≡ total xs + total ys
total-append [] ys = omega arith
total-append (x ∷ xs) ys = omega (arith, total-append xs ys)

-- A step of at most `b` bytes.
total-LedgerStep : (b : ℕ) (xs ys : List DeviceMem) → LedgerStep b xs ys → total ys ≤ total xs + b
total-LedgerStep b xs ys (same e) = rw e (omega arith)
total-LedgerStep b xs ys (charged x small e) = rw e (omega (arith, small))
total-LedgerStep b xs ys (released before after x whole left) =
    rw (whole, left) (omega (arith, total-append before (x ∷ after), total-append before after))

module _ {os : Platform} where
  -- The account is in order, and what is free and what has been recorded come to the quota, exactly.
  pub record IsLimited (k q : ℕ) (m : Memory os) : Type 0 where
    pub steady : IsSteady k q m
    pub fb : FbInfo
    pub held : m.shm k ≡ holds fb
    pub exact : fb.free_mem + sizes (heap_entries m) ≡ q

  IsLimited-Moves :
      (k q : ℕ) (m m' : Memory os) (l : IsLimited k q m)
      → Moves k q l.steady.1.fb.free_mem m m'
      → IsLimited k q m'
  IsLimited-Moves k q m m' l (s, moved) =
      let grown = total-LedgerStep l.steady.1.fb.free_mem (ledger m) (ledger m') moved in
      let before = total_lem (heap_entries m) in
      let after = total_lem (heap_entries m') in
      let read : (holds l.fb ≡ holds l.steady.1.fb) = sym l.held ∙ l.steady.1.held in
      let free : (l.fb.free_mem ≡ l.steady.1.fb.free_mem) = cc in
      record {
        steady = s;
        fb = s.1.fb;
        held = s.1.held;
        exact =
            omega
              (arith, grown, before, after, free, l.exact, s.1.quota, s.1.charged, s.1.free_word);
      }

  -- One call of `ioctl` that has come back, the system answering as in `IsServed` and the driver
  -- honest.
  pub data HonestCall (m : Memory os) : Memory os → Type 0 where
    honest_call :
        (sys : Calls) (driver : Driver) (p : ℕ) (init : Cmd (Memory os) (Option Driver))
        (fd cmd : ℕ) (arg arg' : Arg) (ret : ℤ) {m' : Memory os}
        → IsServed sys driver p
        → IsHonest os driver
        → IsFresh (some p) m
        → IsFormed arg
        → ioctl sys (some driver) init fd cmd arg m ≡ ok (ret, arg') m'
        → HonestCall m m'

  -- A call, whatever it asks for, leaves what is free and what the process has recorded at the quota.
  pub HonestCall-IsLimited :
      (k q : ℕ) (m m' : Memory os) → HonestCall m m' → IsLimited k q m → IsLimited k q m'
  HonestCall-IsLimited k q m m' (honest_call sys driver p init fd cmd arg arg' ret v h f w e) l =
      let b : ℕ = l.steady.1.fb.free_mem in
      IsLimited-Moves k q m m' l (
        subst (Returns (λ _ t. Moves k q b m t)) e (
          ioctl-Moves k q b sys driver p v init fd cmd arg m (l.steady, f, w)
            (Trusts-IsHonest os l.steady.1.fb driver h)))
