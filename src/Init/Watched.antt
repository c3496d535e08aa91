-- ===== src/Init/Watched.antt =====
-- A process under a limit on launches and its monitor: `_init_device_prop` of src/ioctl_hook.c while
-- `main` of src/server_monitor.c starts.
use nv_resource_controller.Prelude.{◌≤◌, ◌≡◌, sym, ap, subst, ◌∙◌, false, [], ◌∷◌, length}
use nv_resource_controller.Prelude.Int.{ℤ}
use nv_resource_controller.Prelude.Run.{Run, ok, blocked, exited, fault, Returns}
use nv_resource_controller.Prelude.Text.{Text}
use nv_resource_controller.Platform.{Platform}
use nv_resource_controller.Hook.Types.{TokenAttr}
use nv_resource_controller.Hook.Paths.{shm_path}
use nv_resource_controller.Hook.Memory.{Object, holds}
use nv_resource_controller.Util.ShmAddr.Up.{opened, AllSized}
use nv_resource_controller.Token.{as_int32}
use nv_resource_controller.Monitor.{Float, init_attr}
use nv_resource_controller.Monitor.Watch.{MainCalls, MonitorState, as_uint32, main}
use nv_resource_controller.Monitor.Watch.First.{IsAtWork, main-init_attr}
use nv_resource_controller.Init.State.{InitCalls, InitState, zeroed_attr}
use nv_resource_controller.Init.Tokens.{init_tokens}
use nv_resource_controller.Init.Ready.{
  IsServed, IsStarted, waiting_attr, group_object, first_attr, init_attr_first,
  init_tokens-init_attr,
}

-- One run leaves one object.
same_object :
    {S A : Type 0} (get : S → Object TokenAttr) (b c : TokenAttr) (r : Run S A)
    → Returns (λ _ t. get t ≡ holds b) r
    → Returns (λ _ t. get t ≡ holds c) r
    → b ≡ c
same_object get b c (ok a t) p q = let e : (holds b ≡ holds c) = sym p ∙ q in cc
same_object get b c fault p q = absurd p
same_object get b c blocked p q = absurd p
same_object get b c exited p q = absurd p

-- `limit` of `main`
abbrev pub limit_of : MainCalls → (limit_arg : Text) → ℤ
limit_of calls limit_arg = as_int32 (as_uint32 (calls.strtol limit_arg))

module _ {os : Platform} (sys : InitCalls) (id : Text) (f : Float) (calls : MainCalls)
    (name minor_arg limit_arg : Text) where
  -- The monitor is called for this process: for its device, with the id exactly as the process has read
  -- it, of at most 15 bytes, with the same names of objects, and on the attributes that the process
  -- waits on.
  pub record IsCalledFor (s : InitState os) (t : MonitorState) : Type 0 where
    pub work : IsAtWork calls (as_uint32 (calls.strtol minor_arg)) t.hdr
    pub sized : AllSized t.attrs
    pub short : length id ≤ 15
    pub minor : as_uint32 (calls.strtol minor_arg) ≡ s.mem.dev.minor
    pub names : (path : Text) → calls.watch.attr_key path ≡ sys.attr_key path
    pub held : t.attrs (group_object sys id s) ≡ holds (waiting_attr sys id s)

  main-first_attr :
      (s : InitState os) (t : MonitorState)
      → IsCalledFor s t
      → (waiting_attr sys id s).inited ≡ false
      → Returns
          (λ _ u.
            u.attrs (group_object sys id s)
            ≡ holds (first_attr (limit_of calls limit_arg) (waiting_attr sys id s)))
          (main f calls [] (name ∷ minor_arg ∷ id ∷ limit_arg ∷ []) t)
  main-first_attr s t c off =
      let w : TokenAttr = waiting_attr sys id s in
      let key = calls.watch.attr_key (shm_path (as_uint32 (calls.strtol minor_arg)) id) in
      let same_key : (key ≡ group_object sys id s) =
        ap (λ n. calls.watch.attr_key (shm_path n id)) c.minor ∙ c.names _ in
      let found : (t.attrs key ≡ holds w) = ap t.attrs same_key ∙ c.held in
      let set : (init_attr f (limit_of calls limit_arg) (opened zeroed_attr (t.attrs key))
          ≡ ok tt (first_attr (limit_of calls limit_arg) w)) =
        ap (λ o. init_attr f (limit_of calls limit_arg) (opened zeroed_attr o)) found
        ∙ init_attr_first f (limit_of calls limit_arg) w off in
      subst
        (λ k.
          Returns (λ _ u. u.attrs k ≡ holds (first_attr (limit_of calls limit_arg) w))
            (main f calls [] (name ∷ minor_arg ∷ id ∷ limit_arg ∷ []) t))
        same_key
        (main-init_attr f calls name minor_arg id limit_arg t
          (first_attr (limit_of calls limit_arg) w) c.work c.sized c.short set)

  -- The process finds attributes that are not set up, and while it waits, the monitor is started for
  -- it and goes on to its first sleep: the process comes back with its token thread running, and the
  -- group is going.
  pub init_tokens-main :
      (s : InitState os) (t : MonitorState)
      → IsServed sys id
      → AllSized s.attrs
      → (waiting_attr sys id s).inited ≡ false
      → IsCalledFor s t
      → Returns
          (λ _ u. u.attrs (group_object sys id s) ≡ holds (sys.monitor (waiting_attr sys id s)))
          (main f calls [] (name ∷ minor_arg ∷ id ∷ limit_arg ∷ []) t)
      → Returns
          (λ _ u. IsStarted sys id (limit_of calls limit_arg) (group_object sys id s) u)
          (init_tokens sys s)
  init_tokens-main s t v sized off c met =
      let w : TokenAttr = waiting_attr sys id s in
      let set : (first_attr (limit_of calls limit_arg) w ≡ sys.monitor w) =
        same_object (λ u. u.attrs (group_object sys id s)) _ _
          (main f calls [] (name ∷ minor_arg ∷ id ∷ limit_arg ∷ []) t) (main-first_attr s t c off)
          met in
      init_tokens-init_attr sys id f (limit_of calls limit_arg) s v sized off
        (init_attr_first f (limit_of calls limit_arg) w off ∙ ap (ok tt) set)
