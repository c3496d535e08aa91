-- ===== src/Monitor/Watch/First.antt =====
-- What `main` has done when it goes to sleep for the first time.
use nv_resource_controller.Prelude.{
  ℕ, ◌≤◌, ◌≡◌, refl, true, false, some, [], ◌∷◌, length, ltb, arith,
}
use nv_resource_controller.Prelude.Int.{ℤ, is_neg, is_nonzero}
use nv_resource_controller.Prelude.Run.{ok, Returns, Returns-in_state}
use nv_resource_controller.Prelude.Text.{Text}
use nv_resource_controller.Hook.Types.{TokenAttr}
use nv_resource_controller.Hook.Paths.{shm_path}
use nv_resource_controller.Hook.Logger.{logger, prints-info}
use nv_resource_controller.Hook.Memory.{Object, holds, Shm, update}
use nv_resource_controller.Util.ShmAddr.{create_shm_addr}
use nv_resource_controller.Util.ShmAddr.Up.{IsUp, opened, AllSized, create_shm_addr-Opens}
use nv_resource_controller.Init.State.{zeroed_attr}
use nv_resource_controller.Token.{as_int32}
use nv_resource_controller.Monitor.{Float, init_attr}
use nv_resource_controller.Monitor.Nvml.{NvmlLib, init_handle}
use nv_resource_controller.Monitor.Watch.{
  WatchCalls, MainCalls, MonitorState, on_attr, on_object, run_turns, watch_attr, open_and_watch,
  watch_dog, read_string, copy_arg, as_uint32, main, run_monitor, log_info, on_hdr, on_attrs,
}

-- NVML can be loaded and started and knows the device, and no shared-memory call fails.
pub record IsAtWork (calls : MainCalls) (minor : ℕ) (hdr : NvmlLib) : Type 0 where
  pub loaded : Returns (λ ret _. is_neg ret ≡ false) (init_handle calls.linker hdr)
  pub nvml : is_nonzero calls.nvml_init_ret ≡ false
  pub handle : is_nonzero (calls.watch.handle_ret minor) ≡ false
  pub up : IsUp calls.watch.attr_calls

update_at : (s : Shm TokenAttr) (k : ℕ) (o : Object TokenAttr) → update s k o k ≡ o
update_at s k o = ground arith

module _ (f : Float) (limit : ℤ) where
  -- Attributes that are mapped and that `init_attr` makes `b`.
  on_attr-init_attr :
      (k : ℕ) (s : Shm TokenAttr) (a b : TokenAttr)
      → s k ≡ holds a
      → init_attr f limit a ≡ ok tt b
      → on_attr k (init_attr f limit) s ≡ ok tt (update s k (holds b))
  unfolding on_attr on_object
  on_attr-init_attr k s a b held e = rw (held, e) refl

  open_and_watch-init_attr :
      (calls : WatchCalls) (minor : ℕ) (id : Text) (s : Shm TokenAttr) (b : TokenAttr)
      → IsUp calls.attr_calls
      → AllSized s
      → let k = calls.attr_key (shm_path minor id) in
        init_attr f limit (opened zeroed_attr (s k)) ≡ ok tt b
        → Returns (λ _ t. t k ≡ holds b) (open_and_watch f calls minor limit [] id s)
  unfolding open_and_watch watch_attr run_turns
  open_and_watch-init_attr calls minor id s b up sized e =
      let k = calls.attr_key (shm_path minor id) in
      let o = create_shm_addr-Opens zeroed_attr calls.attr_calls up k s sized in
      let t = (create_shm_addr zeroed_attr calls.attr_calls k s).shm in
      rw (o.addr, on_attr-init_attr k t (opened zeroed_attr (s k)) b o.object e)
        (ground (arith, update_at t k (holds b)))

  watch_dog-init_attr :
      (calls : WatchCalls) (minor : ℕ) (id : Text) (s : Shm TokenAttr) (b : TokenAttr)
      → is_nonzero (calls.handle_ret minor) ≡ false
      → IsUp calls.attr_calls
      → AllSized s
      → let k = calls.attr_key (shm_path minor id) in
        init_attr f limit (opened zeroed_attr (s k)) ≡ ok tt b
        → Returns (λ _ t. t k ≡ holds b) (watch_dog f calls minor (some id) limit [] s)
  unfolding watch_dog read_string
  watch_dog-init_attr calls minor id s b here up sized e =
      rw here (open_and_watch-init_attr calls minor id s b up sized e)

-- With a group id that fits, everything at work and all objects sized, `main` gets to the end of its
-- turns, here none, and leaves in the object of the group what `init_attr` makes of what it held, or
-- of zeros where it was not there.
pub main-init_attr :
    (f : Float) (calls : MainCalls) (name minor_arg id limit_arg : Text) (s : MonitorState)
    (b : TokenAttr)
    → let minor = as_uint32 (calls.strtol minor_arg) in
      let limit = as_int32 (as_uint32 (calls.strtol limit_arg)) in
      let k = calls.watch.attr_key (shm_path minor id) in
      IsAtWork calls minor s.hdr
      → AllSized s.attrs
      → length id ≤ 15
      → init_attr f limit (opened zeroed_attr (s.attrs k)) ≡ ok tt b
      → Returns
          (λ _ t. t.attrs k ≡ holds b)
          (main f calls [] (name ∷ minor_arg ∷ id ∷ limit_arg ∷ []) s)
unfolding main run_monitor log_info logger on_attrs read_string copy_arg on_hdr
main-init_attr f calls name minor_arg id limit_arg s b v sized short e =
    let minor = as_uint32 (calls.strtol minor_arg) in
    let limit = as_int32 (as_uint32 (calls.strtol limit_arg)) in
    let k = calls.watch.attr_key (shm_path minor id) in
    let cut : (ltb (length id) 16 ≡ true) = ground arith in
    rw (cut, prints-info calls.logs)
      (Returns-in_state (λ ret _. is_neg ret ≡ false) (λ _ t. t.attrs k ≡ holds b)
        (init_handle calls.linker s.hdr) _ _ v.loaded
        λ ret hdr ready.
          rw (ready, v.nvml)
            (Returns-in_state (λ _ t. t k ≡ holds b) (λ _ t. t.attrs k ≡ holds b)
              (watch_dog f calls.watch minor (some id) limit [] s.attrs) _ _
              (watch_dog-init_attr f limit calls.watch minor id s.attrs b v.handle v.up sized e)
              λ _ _ h. h))
