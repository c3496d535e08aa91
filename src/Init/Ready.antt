-- ===== src/Init/Ready.antt =====
-- How a process under a limit on launches waits for its monitor: `_init_device_prop` of
-- src/ioctl_hook.c with `init_attr` of src/server_monitor.c.
use nv_resource_controller.Prelude.{
  ℕ, ◌+◌, ◌-◌, ◌≡◌, refl, sym, ◌∙◌, true, false, some, List, [], ◌∷◌, if◌then◌else◌, arith, ◌==◌,
}
use nv_resource_controller.Prelude.Int.{ℤ, pos, pos_part, ltb_ℤ}
use nv_resource_controller.Prelude.Run.{and_then, ok, blocked, Returns}
use nv_resource_controller.Prelude.Text.{Text}
use nv_resource_controller.Platform.{Platform}
use nv_resource_controller.Hook.Types.{TokenAttr}
use nv_resource_controller.Hook.Paths.{shm_path}
use nv_resource_controller.Hook.Memory.{Object, holds, Shm, update}
use nv_resource_controller.Util.ShmAddr.Up.{IsUp, opened, AllSized, create_shm_addr-Opens}
use nv_resource_controller.Util.ShmAddr.{create_shm_addr}
use nv_resource_controller.Util.Cgroup.{get_cgroup_id}
use nv_resource_controller.Cuda.Launch.{Wait, interrupted, failed, AllInterrupted}
use nv_resource_controller.Monitor.{Float, default_wait_nsec, init_attr, same_limit, set_changed}
use nv_resource_controller.Token.{initial_locals}
use nv_resource_controller.Group.Going.{IsGoing}
use nv_resource_controller.Init.State.{InitCalls, InitState, zeroed_attr}
use nv_resource_controller.Init.Tokens.{
  init_tokens_at, wait_ready, start_from_object, read_cgroup, open_attr, init_tokens,
}

-- A start where nothing fails but a wait that a signal interrupts.
pub record IsServed (sys : InitCalls) (id : Text) : Type 0 where
  pub id_read : get_cgroup_id sys.cgroup_lines 4096 [] ≡ ok (pos 0) id
  pub up : IsUp sys.attr_calls
  pub ready : sys.ready_fails ≡ false
  pub tokens : sys.tokens_fails ≡ false
  pub waits : AllInterrupted sys.waits

update_at : {D : Type 0} (shm : Shm D) (k : ℕ) (o : Object D) → update shm k o k ≡ o
update_at shm k o = ground arith

-- One token of `ready` less.
abbrev pub taken : TokenAttr → TokenAttr
taken a = record a { ready = a.ready - 1 }

-- What `init_attr` makes of attributes that are not set up.
abbrev pub first_attr : ℤ → TokenAttr → TokenAttr
first_attr limit a = record a {
  core_limit = limit;
  mod_times = 0;
  add_per_cycle = pos 1;
  avg_launchs_0 = 0;
  avg_launchs_1 = 0;
  launch_idx = 0;
  tv_nsec = default_wait_nsec;
  inited = true;
  ready = a.ready + 1;
  changed = true;
}

pub init_attr_first :
    (f : Float) (limit : ℤ) (a : TokenAttr)
    → a.inited ≡ false
    → init_attr f limit a ≡ ok tt (first_attr limit a)
unfolding init_attr same_limit set_changed
init_attr_first f limit a off =
    let same : (ltb_ℤ limit limit ≡ false) = ground arith in simp (off, same) refl

pub ok-injective : {S A : Type 0} {a b : A} {s t : S} → ok a s ≡ ok b t → s ≡ t
ok-injective e = cc

module _ {os : Platform} (sys : InitCalls) (id : Text) where
  -- The object of the group, and the attributes in it when the process begins to wait.
  abbrev pub group_object : InitState os → ℕ
  group_object s = sys.attr_key (shm_path s.mem.dev.minor id)

  abbrev pub waiting_attr : InitState os → TokenAttr
  waiting_attr s = record (opened zeroed_attr (s.attrs (group_object s))) { ready = 0 }

  -- A wait that has only been interrupted.
  wait_ready-interrupted :
      (k : ℕ) (waits : List Wait) (s : InitState os)
      → AllInterrupted waits
      → wait_ready sys k waits s ≡ wait_ready sys k [] s
  unfolding wait_ready
  wait_ready-interrupted k [] s h = refl
  wait_ready-interrupted k (interrupted ∷ waits) s h = wait_ready-interrupted k waits s h
  wait_ready-interrupted k (failed ∷ waits) s h = absurd h

  wait_ready_lem :
      (k : ℕ) (a : TokenAttr) (s : InitState os)
      → AllInterrupted sys.waits
      → s.attrs k ≡ holds a
      → wait_ready sys k sys.waits s ≡ (
          if (sys.monitor a).ready == 0
          then blocked
          else ok tt (record s { attrs = update s.attrs k (holds (taken (sys.monitor a))) }))
  unfolding wait_ready
  wait_ready_lem k a s w held = wait_ready-interrupted k sys.waits s w ∙ simp held (ground arith)

  -- The semaphores are there, and the attributes are not set up: the process waits.
  init_tokens_at_lem :
      (k : ℕ) (a : TokenAttr) (s : InitState os)
      → IsServed sys id
      → s.attrs k ≡ holds a
      → a.inited ≡ false
      → init_tokens_at sys k s
        ≡ and_then
            (wait_ready sys k sys.waits
              (record s { attrs = update s.attrs k (holds (record a { ready = 0 })) }))
            (λ _. start_from_object sys k)
  unfolding init_tokens_at start_from_object
  init_tokens_at_lem k a s v held off =
      let same : ((k == k) ≡ true) = ground arith in simp (v.ready, held, same, off) refl

  -- Attributes that are not set up: the process opens them, waits, and starts its token thread with
  -- what the monitor has made of them.
  init_tokens_lem :
      (s : InitState os)
      → IsServed sys id
      → AllSized s.attrs
      → (waiting_attr s).inited ≡ false
      → let k = group_object s in
        let shm =
          update
            (create_shm_addr zeroed_attr sys.attr_calls k s.attrs).shm
            k
            (holds (waiting_attr s)) in
        let b = sys.monitor (waiting_attr s) in
        init_tokens sys s
        ≡ and_then
            (if b.ready == 0
              then blocked
              else ok tt (record s { attrs = update shm k (holds (taken b)) }))
            (λ _. start_from_object sys k)
  unfolding init_tokens read_cgroup open_attr
  init_tokens_lem s v sized off =
      let k = group_object s in
      let o = create_shm_addr-Opens zeroed_attr sys.attr_calls v.up k s.attrs sized in
      let t : InitState os = record s {
        attrs = (create_shm_addr zeroed_attr sys.attr_calls k s.attrs).shm;
      } in
      let u : InitState os = record t { attrs = update t.attrs k (holds (waiting_attr s)) } in
      rw (v.id_read, o.addr)
        (init_tokens_at_lem k (opened zeroed_attr (s.attrs k)) t v o.object off
          ∙ rw
              (wait_ready_lem k (waiting_attr s) u v.waits
                (update_at t.attrs k (holds (waiting_attr s))))
              refl)

  start_lem :
      (k : ℕ) (a : TokenAttr) (t : InitState os)
      → sys.tokens_fails ≡ false
      → t.attrs k ≡ holds a
      → start_from_object sys k t
        ≡ ok tt (record t { tokens = some a.core_limit; attr = some k; thread = true })
  unfolding start_from_object
  start_lem k a t e held = simp (held, e) refl

  -- The attributes that the process finds are not set up, and nobody posts `ready` while it waits: it
  -- waits for ever.
  pub init_tokens_blocked :
      (s : InitState os)
      → IsServed sys id
      → AllSized s.attrs
      → (waiting_attr s).inited ≡ false
      → (sys.monitor (waiting_attr s)).ready ≡ 0
      → init_tokens sys s ≡ blocked
  init_tokens_blocked s v sized off none_posted =
      rw (init_tokens_lem s v sized off, none_posted) refl

  -- The token thread runs, with `limit` tokens to begin with, and the group is going.
  pub record IsStarted (limit : ℤ) (k : ℕ) (t : InitState os) : Type 0 where
    pub tokens : t.tokens ≡ some limit
    pub attr : t.attr ≡ some k
    pub thread : t.thread ≡ true
    pub shared : TokenAttr
    pub held : t.attrs k ≡ holds shared
    pub going : IsGoing (record {
      shared = record { attr = shared; tokens = pos_part limit };
      locals = initial_locals;
    })

  -- The attributes that the process finds are not set up, and the monitor calls `init_attr` on them
  -- while the process waits: the process goes on.
  pub init_tokens-init_attr :
      (f : Float) (limit : ℤ) (s : InitState os)
      → IsServed sys id
      → AllSized s.attrs
      → (waiting_attr s).inited ≡ false
      → init_attr f limit (waiting_attr s) ≡ ok tt (sys.monitor (waiting_attr s))
      → Returns (λ _ t. IsStarted limit (group_object s) t) (init_tokens sys s)
  init_tokens-init_attr f limit s v sized off e =
      let w : TokenAttr = waiting_attr s in
      let b : TokenAttr = first_attr limit w in
      let set : (sys.monitor w ≡ b) = ok-injective (sym e ∙ init_attr_first f limit w off) in
      let k = group_object s in
      let shm = update (create_shm_addr zeroed_attr sys.attr_calls k s.attrs).shm k (holds w) in
      let t : InitState os = record s { attrs = update shm k (holds (taken b)) } in
      rw (init_tokens_lem s v sized off, set)
        (rw (start_lem k (taken b) t v.tokens (update_at shm k (holds (taken b)))) (record {
          tokens = refl;
          attr = refl;
          thread = refl;
          shared = taken b;
          held = update_at shm k (holds (taken b));
          going = record {
            attr = record { inited = refl; cycle = omega arith };
            locals = λ n r. ground arith;
          };
        }))
