-- ===== src/Monitor/Watch/Apart.antt =====
-- The monitor works on one object: the attributes of another group stay as they are.
use nv_resource_controller.Prelude.{
  ℕ, ◌^◌, ◌<◌, ◌≤◌, ◌≡◌, ◌≢◌, refl, sym, ap, subst, Bool, true, false, Option, none, some, List, [],
  ◌∷◌, length, ltb, if◌then◌else◌, arith, Bool-cases, inl, inr,
}
use nv_resource_controller.Prelude.Int.{ℤ, pos, negsuc, is_neg, is_nonzero}
use nv_resource_controller.Prelude.Run.{
  Run, Cmd, ok, blocked, exited, fault, pure, IfReturns, in_state, ◌>>=◌,
}
use nv_resource_controller.Prelude.Unseen.{Unseen, Unseen-and_then, Unseen-in_state, anyhow}
use nv_resource_controller.Prelude.Text.{Text}
use nv_resource_controller.Hook.Types.{TokenAttr}
use nv_resource_controller.Hook.Paths.{shm_path}
use nv_resource_controller.Hook.Paths.Apart.{shm_path-injective}
use nv_resource_controller.Hook.Logger.{logger, prints-info}
use nv_resource_controller.Hook.Memory.{Object, missing, empty, holds, Shm, update}
use nv_resource_controller.Util.ShmAddr.{
  ShmCalls, Addr, null, map_failed, mapped, find_object, create_shm_addr,
}
use nv_resource_controller.Init.State.{zeroed_attr}
use nv_resource_controller.Monitor.{Float, init_attr, delta_change}
use nv_resource_controller.Monitor.Nvml.{init_handle}
use nv_resource_controller.Monitor.Watch.{
  Turn, WatchCalls, MainCalls, MonitorState, on_attr, on_object, react, sleep, others_run,
  read_util, read_string, run_turn, run_turns, watch_attr, open_and_watch, watch_dog, copy_arg,
  as_uint32, main, run_monitor, log_info, on_hdr, on_attrs, exit,
}

module _ (j : ℕ) where
  -- Object `j` is as it was.
  abbrev Leaves : {A : Type 0} → Cmd (Shm TokenAttr) A → Type 0
  Leaves act = Unseen (λ s. s j) act

  abbrev Leaves-and_then :
      {A B : Type 0} (act : Cmd (Shm TokenAttr) A) (next : A → Cmd (Shm TokenAttr) B)
      → Leaves act
      → ((a : A) → Leaves (next a))
      → Leaves (act >>= next)
  Leaves-and_then = Unseen-and_then (λ s. s j)

  Leaves-in_state :
      {T A : Type 0} (r : Run T A) (s : Shm TokenAttr) (put : T → Shm TokenAttr)
      → ((b : T) → put b j ≡ s j)
      → IfReturns (λ _ t. t j ≡ s j) (in_state r put)
  Leaves-in_state (ok a b) s put h = h b
  Leaves-in_state fault s put h = tt
  Leaves-in_state blocked s put h = tt
  Leaves-in_state exited s put h = tt

  module _ (k : ℕ) (apart : j ≢ k) where
    on_object-Leaves :
        {A : Type 0} (o : Object TokenAttr) (act : Cmd TokenAttr A) → Leaves (on_object o k act)
    unfolding on_object
    on_object-Leaves missing act s = tt
    on_object-Leaves empty act s = tt
    on_object-Leaves (holds a) act s =
        Leaves-in_state (act a) s (λ b. update s k (holds b)) λ b. ground arith

    on_attr-Leaves : {A : Type 0} (act : Cmd TokenAttr A) → Leaves (on_attr k act)
    unfolding on_attr
    on_attr-Leaves act s = on_object-Leaves (s k) act s

    find_object_others :
        (sys : ShmCalls) (o : Object TokenAttr) (s : Shm TokenAttr)
        → (find_object zeroed_attr sys k o s).shm j ≡ s j
    unfolding find_object
    find_object_others sys missing s = ground arith
    find_object_others sys empty s = ground arith
    find_object_others sys (holds a) s = ground arith

    create_shm_addr_others :
        (sys : ShmCalls) (s : Shm TokenAttr) → (create_shm_addr zeroed_attr sys k s).shm j ≡ s j
    unfolding create_shm_addr
    create_shm_addr_others sys s = ground (arith, find_object_others sys (s k) s)

    -- A pointer that is not one to another object.
    abbrev IsAt : Addr → Type 0
    IsAt null = Unit {0}
    IsAt map_failed = Unit {0}
    IsAt (mapped i) = i ≡ k

    find_object-IsAt :
        (sys : ShmCalls) (o : Object TokenAttr) (s : Shm TokenAttr)
        → IsAt (find_object zeroed_attr sys k o s).addr
    unfolding find_object
    find_object-IsAt sys missing s = ground arith
    find_object-IsAt sys empty s = ground arith
    find_object-IsAt sys (holds a) s = ground arith

    create_shm_addr-IsAt :
        (sys : ShmCalls) (s : Shm TokenAttr) → IsAt (create_shm_addr zeroed_attr sys k s).addr
    unfolding create_shm_addr
    create_shm_addr-IsAt sys s = ground (arith, find_object-IsAt sys (s k) s)

    module _ (f : Float) (cgroup_id : Text) (limit : ℤ) where
      react-Leaves : (util : ℤ) → Leaves (react f k limit util)
      unfolding react
      react-Leaves (pos n) s = on_attr-Leaves (delta_change f (pos n) limit) s
      react-Leaves (negsuc n) s = refl

      run_turn-Leaves : (turn : Turn) → Leaves (run_turn f k cgroup_id limit turn)
      unfolding run_turn sleep read_util
      run_turn-Leaves turn =
          Leaves-and_then (sleep turn.naps) _ (λ s. Leaves-in_state _ s (λ _. s) λ _. refl)
            λ _.
              Leaves-and_then (on_attr k (others_run turn.others)) _
                (on_attr-Leaves (others_run turn.others))
                λ _.
                  Leaves-and_then (read_util cgroup_id turn) (react f k limit)
                    (λ s. Leaves-in_state _ s (λ _. s) λ _. refl) react-Leaves

      run_turns-Leaves : (turns : List Turn) → Leaves (run_turns f k cgroup_id limit turns)
      unfolding run_turns
      run_turns-Leaves [] = λ s. refl
      run_turns-Leaves (turn ∷ turns) =
          Leaves-and_then (run_turn f k cgroup_id limit turn) _ (run_turn-Leaves turn)
            λ _. run_turns-Leaves turns

      watch_attr-Leaves :
          (calls : WatchCalls) (turns : List Turn) (a : Addr)
          → IsAt a
          → Leaves (watch_attr f calls cgroup_id limit turns a)
      unfolding watch_attr
      watch_attr-Leaves calls turns null e = λ s. refl
      watch_attr-Leaves calls turns map_failed e = λ s. tt
      watch_attr-Leaves calls turns (mapped i) e = rw e (
          Leaves-and_then (on_attr k (init_attr f limit)) _ (on_attr-Leaves (init_attr f limit))
            λ _ s. ground (arith, run_turns-Leaves turns s))

  -- The monitor of another object.
  open_and_watch-Leaves :
      (f : Float) (calls : WatchCalls) (minor : ℕ) (limit : ℤ) (turns : List Turn)
      (cgroup_id : Text)
      → j ≢ calls.attr_key (shm_path minor cgroup_id)
      → Leaves (open_and_watch f calls minor limit turns cgroup_id)
  unfolding open_and_watch
  open_and_watch-Leaves f calls minor limit turns cgroup_id apart s =
      let k : ℕ = calls.attr_key (shm_path minor cgroup_id) in
      let r = create_shm_addr zeroed_attr calls.attr_calls k s in
      subst
        (λ o. IfReturns (λ _ t. t j ≡ o) (watch_attr f calls cgroup_id limit turns r.addr r.shm))
        (create_shm_addr_others k apart calls.attr_calls s)
        (watch_attr-Leaves k apart f cgroup_id limit calls turns r.addr
          (create_shm_addr-IsAt k apart calls.attr_calls s) r.shm)

  watch_dog-Leaves :
      (f : Float) (calls : WatchCalls) (minor : ℕ) (limit : ℤ) (turns : List Turn) (id_arg : Text)
      → (length id_arg ≤ 15 → j ≢ calls.attr_key (shm_path minor id_arg))
      → Leaves (watch_dog f calls minor (copy_arg id_arg) limit turns)
  unfolding watch_dog read_string copy_arg
  watch_dog-Leaves f calls minor limit turns id_arg apart s =
      elim (Bool-cases (is_nonzero (calls.handle_ret minor))) [
        | inl gone ↦ rw gone refl
        | inr here ↦ elim (Bool-cases (ltb (length id_arg) 16)) [
          | inl e ↦
              rw (here, e)
                (open_and_watch-Leaves f calls minor limit turns id_arg (apart (ground arith)) s)
          | inr e ↦ rw (here, e) tt
        ]
      ]

as_uint32_bound : (n : ℤ) → as_uint32 n < 2 ^ 32
as_uint32_bound (pos n) = omega arith
as_uint32_bound (negsuc n) = omega arith

module _ (f : Float) (calls : MainCalls) (turns : List Turn) (minor : ℕ) (id : Text)
    (word : minor < 2 ^ 32) (long : 15 < length id)
    (alone : (a : Text)
      → calls.watch.attr_key a ≡ calls.watch.attr_key (shm_path minor id)
      → a ≡ shm_path minor id) where
  abbrev group_attr : MonitorState → Object TokenAttr
  group_attr s = s.attrs (calls.watch.attr_key (shm_path minor id))

  -- The object of the group is not the one that the monitor opens.
  apart_from :
      (minor_read : ℤ) (id_arg : Text)
      → length id_arg ≤ 15
      → calls.watch.attr_key (shm_path minor id)
        ≢ calls.watch.attr_key (shm_path (as_uint32 minor_read) id_arg)
  apart_from minor_read id_arg short e =
      let same =
        shm_path-injective minor (as_uint32 minor_read) id id_arg word (as_uint32_bound minor_read)
          (sym (alone _ (sym e))) in
      let size : (length id ≡ length id_arg) = ap length same.1 in absurd (omega arith)

  log_info-Unseen : (o : Option Text) → Unseen group_attr (log_info calls o)
  unfolding log_info logger on_attrs read_string
  log_info-Unseen none s = rw (prints-info calls.logs) tt
  log_info-Unseen (some text) s = rw (prints-info calls.logs) refl

  exit-Unseen : (b : Bool) → Unseen {A = Unit {0}} group_attr (if b then exit else pure tt)
  unfolding exit
  exit-Unseen true s = tt
  exit-Unseen false s = refl

  on_attrs-Unseen :
      (minor_read limit : ℤ) (id_arg : Text)
      → Unseen group_attr
          (on_attrs (watch_dog f calls.watch (as_uint32 minor_read) (copy_arg id_arg) limit turns))
  unfolding on_attrs
  on_attrs-Unseen minor_read limit id_arg s = Unseen-in_state group_attr s _ _ (
      watch_dog-Leaves _ f calls.watch (as_uint32 minor_read) limit turns id_arg
        (apart_from minor_read id_arg) s.attrs)

  run_monitor-Unseen :
      (minor_arg id_arg limit_arg : Text)
      → Unseen group_attr (run_monitor f calls turns minor_arg id_arg limit_arg)
  unfolding run_monitor on_hdr
  run_monitor-Unseen minor_arg id_arg limit_arg =
      Unseen-and_then group_attr (log_info calls (copy_arg id_arg)) _
        (log_info-Unseen (copy_arg id_arg))
        λ _.
          Unseen-and_then group_attr (on_hdr (init_handle calls.linker)) _
            (λ s.
              Unseen-in_state group_attr s (init_handle calls.linker s.hdr) _
                (anyhow (λ _ _. refl) (init_handle calls.linker s.hdr)))
            λ ret.
              Unseen-and_then group_attr (if is_neg ret then exit else pure tt) _
                (exit-Unseen (is_neg ret))
                λ _.
                  Unseen-and_then group_attr
                    (if is_nonzero calls.nvml_init_ret then exit else pure tt) _
                    (exit-Unseen (is_nonzero calls.nvml_init_ret))
                    λ _.
                      Unseen-and_then group_attr _ _
                        (on_attrs-Unseen (calls.strtol minor_arg) _ id_arg) λ _ s. refl

  -- A group whose id has more than 15 bytes is out of the reach of every monitor, whatever its
  -- arguments and however long it runs, where the object of the group has no other name: if it comes
  -- back from its turns, the attributes of the group are as they were.
  pub main-elsewhere :
      (argv : List Text) (s : MonitorState)
      → IfReturns (λ _ t. group_attr t ≡ group_attr s) (main f calls turns argv s)
  unfolding main exit
  main-elsewhere [] s = tt
  main-elsewhere (name ∷ []) s = tt
  main-elsewhere (name ∷ a ∷ []) s = tt
  main-elsewhere (name ∷ a ∷ b ∷ []) s = tt
  main-elsewhere (name ∷ a ∷ b ∷ c ∷ []) s = run_monitor-Unseen a b c s
  main-elsewhere (name ∷ a ∷ b ∷ c ∷ d ∷ argv) s = tt
