-- ===== src/Ioctl/Control/Fill.antt =====
-- The loop of the two `fb_get_info` handlers against a reference on lists, and `__get_fb_info`.
use nv_resource_controller.Prelude.{
  ℕ, zero, suc, ◌≤◌, ◌≡◌, refl, ap, List, [], ◌∷◌, ◌++◌, map, length, take, drop, arith, ◌≢◌, ◌==◌,
  if◌then◌else◌, Bool-cases, inl, inr,
}
use nv_resource_controller.Prelude.Run.{Returns, Returns-and_then, ok}
use nv_resource_controller.Platform.{Platform}
use nv_resource_controller.Hook.Memory.{Memory}
use nv_resource_controller.Util.ShmAddr.{create_shm_addr}
use nv_resource_controller.Util.ShmAddr.Up.{
  IsUp, opened, create_shm_addr-Opens, AllSized-Opens, holds-Opens,
}
use nv_resource_controller.Ioctl.Params.{FbEntry, FbList}
use nv_resource_controller.Ioctl.Account.{Inv, IsSteady}
use nv_resource_controller.Ioctl.Ledger.{Moves, same, allocations}
use nv_resource_controller.Ioctl.Control.{
  FbCalls, fb_kib, zeroed_fb, fill, fill_loop, get_fb_info, fill_params, fill_known,
}
use nv_resource_controller.Ioctl.Alloc.{no_device}

-- The entries that the count covers are filled, the others are left alone.
abbrev pub filled : Platform → (total_mem free_mem : ℕ) → FbList → FbList
filled os total_mem free_mem params = record params {
  fb_info_list =
      map (fill os total_mem free_mem) (take params.fb_info_list_size params.fb_info_list)
      ++ drop params.fb_info_list_size params.fb_info_list;
}

module _ {os : Platform} where
  fill_loop_lem :
      (total_mem free_mem n : ℕ) (xs : List FbEntry) (m : Memory os)
      → n ≤ length xs
      → fill_loop total_mem free_mem n xs m
        ≡ ok (map (fill os total_mem free_mem) (take n xs) ++ drop n xs) m
  unfolding fill_loop
  fill_loop_lem total_mem free_mem zero xs m h = refl
  fill_loop_lem total_mem free_mem (suc n) [] m h = absurd (omega arith)
  fill_loop_lem total_mem free_mem (suc n) (x ∷ xs) m h =
      rw (fill_loop_lem total_mem free_mem n xs m (omega arith))

  -- What `__get_fb_info` returns, and that it keeps the account.
  abbrev pub FbRead : (k q : ℕ) → FbCalls → ℕ → Memory os → ℕ × ℕ → Memory os → Type 0
  FbRead k q sys device_id m r m' =
      (r ≡ fb_kib sys.readlink (opened zeroed_fb (m.shm device_id)))
      × IsSteady k q m'
      × (m'.dev ≡ m.dev)

  Inv-Opens :
      {k q : ℕ} {m : Memory os} (device_id : ℕ) (sys : FbCalls)
      → IsUp sys.shm_calls
      → (i : Inv k q m)
      → Inv k q (record m { shm = (create_shm_addr zeroed_fb sys.shm_calls device_id m.shm).shm })
  Inv-Opens {k} {m} device_id sys up i =
      let o = create_shm_addr-Opens zeroed_fb sys.shm_calls up device_id m.shm i.sized in
      record {
        fb = i.fb;
        mapped = i.mapped;
        held = holds-Opens o k i.fb i.held;
        quota = i.quota;
        charged = i.charged;
        free_word = i.free_word;
        words = i.words;
        heap_distinct = i.heap_distinct;
        rm_distinct = i.rm_distinct;
        sized = AllSized-Opens o i.sized;
      }

  pub get_fb_info_lem :
      {k q : ℕ} (device_id : ℕ) (sys : FbCalls) (m : Memory os)
      → IsUp sys.shm_calls
      → IsSteady k q m
      → Returns (FbRead k q sys device_id m) (get_fb_info sys device_id m)
  unfolding get_fb_info
  get_fb_info_lem device_id sys m up s =
      let o = create_shm_addr-Opens zeroed_fb sys.shm_calls up device_id m.shm (s.1).sized in
      rw (o.addr, o.object) (refl, (s.0, Inv-Opens device_id sys up s.1), refl)

  -- What the handlers report of a device: nothing where the handle belongs to none.
  abbrev pub reported : FbCalls → ℕ → Memory os → FbList → FbList
  reported sys device_id m params =
      let r : ℕ × ℕ = fb_kib sys.readlink (opened zeroed_fb (m.shm device_id)) in
      if device_id == no_device then params else filled os r.0 r.1 params

  -- The outcome of a handler that reports `params'` and keeps the account.
  abbrev pub Reports : (k q : ℕ) → FbCalls → ℕ → Memory os → FbList → FbList → Memory os → Type 0
  Reports k q sys device_id m params params' m' =
      (params' ≡ reported sys device_id m params) × Moves k q 0 m m'

  fill_params_lem :
      {k q : ℕ} (sys : FbCalls) (device_id : ℕ) (params : FbList) (m : Memory os)
      → IsUp sys.shm_calls
      → IsSteady k q m
      → params.fb_info_list_size ≤ length params.fb_info_list
      → device_id ≢ no_device
      → Returns (Reports k q sys device_id m params) (fill_params sys device_id params m)
  unfolding fill_params
  fill_params_lem {k} {q} sys device_id params m up s fits ne =
      Returns-and_then (FbRead k q sys device_id m) (Reports k q sys device_id m params)
        (get_fb_info sys device_id m) _ (get_fb_info_lem device_id sys m up s)
        λ r m' p. rw (fill_loop_lem r.0 r.1 params.fb_info_list_size params.fb_info_list m' fits) (
          ground (arith, p.0),
          (p.1, same (ap (λ d. allocations (os.heap.entries d.heap_mem_list)) p.2)),
        )

  pub fill_known_lem :
      {k q : ℕ} (sys : FbCalls) (device_id : ℕ) (params : FbList) (m : Memory os)
      → IsUp sys.shm_calls
      → IsSteady k q m
      → params.fb_info_list_size ≤ length params.fb_info_list
      → Returns (Reports k q sys device_id m params) (fill_known sys device_id params m)
  unfolding fill_known
  fill_known_lem sys device_id params m up s fits = elim (Bool-cases (device_id == no_device)) [
    | inl e ↦ rw e (ground arith, (s, same refl))
    | inr e ↦ rw e (fill_params_lem sys device_id params m up s fits (ground arith))
  ]
