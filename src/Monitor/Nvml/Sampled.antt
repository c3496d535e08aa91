-- ===== src/Monitor/Nvml/Sampled.antt =====
-- Which sample `get_gpu_util` takes.
use nv_resource_controller.Prelude.{
  ℕ, ◌+◌, ◌*◌, ◌/◌, ◌^◌, ◌≤◌, ◌<◌, ◌≡◌, refl, ap, ◌∙◌, All, subst, Bool, false, not, ◌&&◌, Option,
  none, some, List, [], ◌∷◌, length, ltb, if◌then◌else◌, arith, Bool-cases, Option-cases, inl, inr,
}
use nv_resource_controller.Prelude.Int.{ℤ, pos, negsuc}
use nv_resource_controller.Prelude.Run.{Run, ok}
use nv_resource_controller.Prelude.Text.{Text, eq_text, eq_text-length}
use nv_resource_controller.Util.Cgroup.{get_cgroup_id}
use nv_resource_controller.Util.Cgroup.Short.{LeavesAtMost, get_cgroup_id_short}
use nv_resource_controller.Util.Wait.{Timespec}
use nv_resource_controller.Monitor.Nvml.{
  Sample, UtilCalls, max_cgroup_id_len, is_target, find_sample, util_of, micros, get_gpu_util,
  search_samples,
}

-- The outcome of `get_cgroup_id` for an id, or for none.
abbrev pub id_read : Option Text → Text → Run Text ℤ
id_read none before = ok (negsuc 0) before
id_read (some id) before = ok (pos 0) id

-- Is it the id that is looked for?
abbrev pub is_id : Text → Option Text → Bool
is_id cgroup_id none = false
is_id cgroup_id (some id) = eq_text id cgroup_id

-- The first sample that is not older than `last_seen` and whose process is in the group.
abbrev pub first_sample : (ℕ → Option Text) → Text → ℕ → List Sample → Option Sample
first_sample id_of cgroup_id last_seen [] = none
first_sample id_of cgroup_id last_seen (x ∷ xs) =
    if not (ltb x.time_stamp last_seen) && is_id cgroup_id (id_of x.pid)
    then some x
    else first_sample id_of cgroup_id last_seen xs

-- The load that a sample tells of, -1 without one.
abbrev pub load_of : Option Sample → ℤ
load_of none = negsuc 0
load_of (some sample) = pos sample.sm_util

-- The load, an unsigned number, fits an `int`.
abbrev pub FitsInt : Sample → Type 0
FitsInt sample = sample.sm_util < 2 ^ 31

-- A result, whatever string is left in the buffer.
abbrev pub Gives : {A : Type 0} → A → Run Text A → Type 0
Gives {A} a r = (t : Text) × (r ≡ ok a t)

module _ (sys : UtilCalls) (cgroup_id : Text) (id_of : ℕ → Option Text)
    (reads : (pid : ℕ) (t : Text)
      → get_cgroup_id (sys.cgroup_lines pid) max_cgroup_id_len t ≡ id_read (id_of pid) t) where
  is_target_lem :
      (sample : Sample) (t : Text)
      → Gives (is_id cgroup_id (id_of sample.pid)) (is_target sys cgroup_id sample t)
  unfolding is_target
  is_target_lem sample t = elim (Option-cases (id_of sample.pid)) [
    | inl e ↦ rw (reads sample.pid t, e) (t, refl)
    | inr (id, e) ↦ rw (reads sample.pid t, e) (id, refl)
  ]

  find_sample_lem :
      (last_seen : ℕ) (samples : List Sample) (t : Text)
      → Gives
          (first_sample id_of cgroup_id last_seen samples)
          (find_sample sys cgroup_id last_seen samples t)
  unfolding find_sample
  find_sample_lem last_seen [] t = (t, refl)
  find_sample_lem last_seen (x ∷ xs) t = elim (Bool-cases (ltb x.time_stamp last_seen)) [
    | inl old ↦ rw old (find_sample_lem last_seen xs t)
    | inr new ↦
        let (t', hit) = is_target_lem x t in
        elim (Bool-cases (is_id cgroup_id (id_of x.pid))) [
          | inl e ↦ rw (new, hit, e) (t', refl)
          | inr e ↦ rw (new, hit, e) (find_sample_lem last_seen xs t')
        ]
  ]

  found_lem :
      (last_seen : ℕ) (samples : List Sample) (t : Text)
      → Gives
          (util_of (first_sample id_of cgroup_id last_seen samples))
          (search_samples sys cgroup_id last_seen (pos 0, samples) t)
  unfolding search_samples
  found_lem last_seen samples t =
      let (t', found) = find_sample_lem last_seen samples t in rw found (t', refl)

  pub get_gpu_util_found :
      (last_time : Timespec) (samples : List Sample) (t : Text)
      → sys.process_utilization (micros last_time) ≡ (pos 0, samples)
      → Gives
          (util_of (first_sample id_of cgroup_id (micros last_time) samples))
          (get_gpu_util sys cgroup_id last_time t)
  unfolding get_gpu_util
  get_gpu_util_found last_time samples t e = rw e (found_lem (micros last_time) samples t)

  load_of-first_sample :
      (last_seen : ℕ) (samples : List Sample)
      → All FitsInt samples
      → util_of (first_sample id_of cgroup_id last_seen samples)
        ≡ load_of (first_sample id_of cgroup_id last_seen samples)
  load_of-first_sample last_seen [] h = refl
  load_of-first_sample last_seen (x ∷ xs) h =
      ground (arith, h.0, load_of-first_sample last_seen xs h.1)

  -- Where NVML gives samples whose loads fit an `int` since `last_time` in microseconds, a number of 64 bits,
  -- the result is the `smUtil` of the first of them that is not older than that and whose process is
  -- in the group, or -1 where there is none.
  pub get_gpu_util_lem :
      (last_time : Timespec) (samples : List Sample) (t : Text)
      → let last_seen = last_time.tv_sec * 1_000_000 + last_time.tv_nsec / 1000 in
        last_seen < 2 ^ 64
        → sys.process_utilization last_seen ≡ (pos 0, samples)
        → All FitsInt samples
        → Gives
            (load_of (first_sample id_of cgroup_id last_seen samples))
            (get_gpu_util sys cgroup_id last_time t)
  get_gpu_util_lem last_time samples t word e fits =
      let last_seen = last_time.tv_sec * 1_000_000 + last_time.tv_nsec / 1000 in
      let same : (micros last_time ≡ last_seen) = omega (arith, word) in
      let (t', found) =
        get_gpu_util_found last_time samples t (ap sys.process_utilization same ∙ e) in
      let load : (util_of (first_sample id_of cgroup_id (micros last_time) samples)
          ≡ load_of (first_sample id_of cgroup_id last_seen samples)) =
        ap (λ n. util_of (first_sample id_of cgroup_id n samples)) same
        ∙ load_of-first_sample last_seen samples fits in
      (t', found ∙ ap (λ n. ok n t') load)

  -- An id that has been read has at most 15 bytes.
  id-short : (pid : ℕ) (id : Text) → id_of pid ≡ some id → length id ≤ 15
  id-short pid id e =
      subst (λ o. LeavesAtMost 15 [] (id_read o [])) e
        (subst (LeavesAtMost 15 []) (reads pid [])
          (get_cgroup_id_short (sys.cgroup_lines pid) 16 []))

  other_id :
      (pid : ℕ) (id : Text)
      → 15 < length cgroup_id
      → id_of pid ≡ some id
      → eq_text id cgroup_id ≡ false
  other_id pid id long e = elim (Bool-cases (eq_text id cgroup_id)) [
    | inl same ↦ absurd (omega (arith, eq_text-length id cgroup_id same, id-short pid id e))
    | inr other ↦ other
  ]

  is_id-long : (pid : ℕ) → 15 < length cgroup_id → is_id cgroup_id (id_of pid) ≡ false
  is_id-long pid long = elim (Option-cases (id_of pid)) [
    | inl e ↦ rw e refl
    | inr (id, e) ↦ rw e (other_id pid id long e)
  ]

  first_sample-long :
      (last_seen : ℕ) (samples : List Sample)
      → 15 < length cgroup_id
      → first_sample id_of cgroup_id last_seen samples ≡ none
  first_sample-long last_seen [] long = refl
  first_sample-long last_seen (x ∷ xs) long =
      ground (arith, is_id-long x.pid long, first_sample-long last_seen xs long)

  -- A group whose id has 16 bytes or more is never found.
  pub get_gpu_util-long :
      (last_time : Timespec) (samples : List Sample) (t : Text)
      → 15 < length cgroup_id
      → sys.process_utilization (micros last_time) ≡ (pos 0, samples)
      → Gives (negsuc 0) (get_gpu_util sys cgroup_id last_time t)
  get_gpu_util-long last_time samples t long e =
      subst (λ found. Gives (util_of found) (get_gpu_util sys cgroup_id last_time t))
        (first_sample-long (micros last_time) samples long)
        (get_gpu_util_found last_time samples t e)
