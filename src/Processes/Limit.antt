-- ===== src/Processes/Limit.antt =====
-- The limit on memory of a device that several processes share.
use nv_resource_controller.Prelude.{
  ℕ, ◌+◌, ◌%◌, ◌^◌, ◌<◌, ◌≤◌, ◌≡◌, ◌≢◌, subst, List, [], ◌∷◌, ◌++◌, arith,
}
use nv_resource_controller.Platform.{Platform}
use nv_resource_controller.Hook.Types.{FbInfo}
use nv_resource_controller.Hook.Memory.{empty, holds, Device, Memory}
use nv_resource_controller.Ioctl.Account.{sizes}
use nv_resource_controller.Dlfcn.Ioctl.Limit.{IsLimited, HonestCall, HonestCall-IsLimited}
use nv_resource_controller.Processes.{Processes, seen_by}
use nv_resource_controller.Processes.Shared.{
  AllOrderly, IsSteady-process, IsOrderly-IsSteady, IsOrderly-at, AllOrderly-put,
}

module _ {os : Platform} where
  -- What one process, and what all of them, have recorded in their lists.
  abbrev pub recorded : Device os → ℕ
  recorded d = sizes (os.heap.entries d.heap_mem_list)

  abbrev pub total_recorded : List (Device os) → ℕ
  total_recorded [] = 0
  total_recorded (d ∷ ds) = recorded d + total_recorded ds

  -- A call of `ioctl` in one of the processes, with an honest driver.
  pub data HonestStep (s : Processes os) : Processes os → Type 0 where
    honest_step :
        (before after : List (Device os)) (d : Device os) (m : Memory os)
        → s.devs ≡ before ++ d ∷ after
        → HonestCall (seen_by d s.shm) m
        → HonestStep s (record { devs = before ++ m.dev ∷ after; shm = m.shm })

  pub data HonestReach (s : Processes os) : Processes os → Type 0 where
    here : HonestReach s s
    later : {t u : Processes os} → HonestReach s t → HonestStep t u → HonestReach s u

  -- Every process is in order, and what is free and what all of them have recorded come to the quota,
  -- exactly.
  pub record IsWithin (k q : ℕ) (s : Processes os) : Type 0 where
    pub orderly : AllOrderly k s.devs
    pub fb : FbInfo
    pub held : s.shm k ≡ holds fb
    pub sized : (j : ℕ) → s.shm j ≢ empty
    pub word : q < 2 ^ 64
    pub exact : fb.free_mem + total_recorded s.devs ≡ q

  total_recorded-put :
      (before after : List (Device os)) (d e : Device os)
      → total_recorded (before ++ d ∷ after) + recorded e
        ≡ total_recorded (before ++ e ∷ after) + recorded d
  total_recorded-put [] after d e = omega arith
  total_recorded-put (b ∷ before) after d e = omega (arith, total_recorded-put before after d e)

  recorded_at :
      (before after : List (Device os)) (d : Device os)
      → recorded d ≤ total_recorded (before ++ d ∷ after)
  recorded_at [] after d = omega arith
  recorded_at (b ∷ before) after d = omega (arith, recorded_at before after d)

  IsWithin-HonestStep :
      (k q : ℕ) (s t : Processes os) → HonestStep s t → IsWithin k q s → IsWithin k q t
  IsWithin-HonestStep k q s t (honest_step before after d m e c) i =
      let orderly = subst (AllOrderly k) e i.orderly in
      let exact = subst (λ ds. i.fb.free_mem + total_recorded ds ≡ q) e i.exact in
      let part = recorded_at before after d in
      let own = IsOrderly-at k before after d orderly in
      let limited : IsLimited k ((i.fb.free_mem + d.alloc_mem) % 2 ^ 64) (seen_by d s.shm) =
        record {
          steady =
              IsSteady-process k i.fb s.shm d own i.held (omega (arith, exact, i.word)) i.sized;
          fb = i.fb;
          held = i.held;
          exact = omega (arith, exact, part, i.word, own.charged);
        } in
      let l = HonestCall-IsLimited k _ (seen_by d s.shm) m c limited in
      let rest = total_recorded-put before after d m.dev in
      record {
        orderly = AllOrderly-put k before after d m.dev orderly (IsOrderly-IsSteady k _ m l.steady);
        fb = l.fb;
        held = l.held;
        sized = l.steady.1.sized;
        word = i.word;
        exact = omega (arith, rest, exact, limited.exact, l.exact);
      }

  -- However whole calls of several processes follow each other, served as in `HonestCall`, what is
  -- free and what all of the processes have recorded come to the quota of the device, exactly, where
  -- they did so before: what is recorded never comes to more than the quota.
  pub IsWithin-HonestReach :
      (k q : ℕ) (s t : Processes os) → HonestReach s t → IsWithin k q s → IsWithin k q t
  IsWithin-HonestReach k q s t here i = i
  IsWithin-HonestReach k q s t (later {t = u} reach st) i =
      IsWithin-HonestStep k q u t st (IsWithin-HonestReach k q s u reach i)
