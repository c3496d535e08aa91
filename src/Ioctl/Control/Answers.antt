-- ===== src/Ioctl/Control/Answers.antt =====
-- What `post_rm_control_fb_get_info` of src/ioctl_hook.c tells an application, entry by entry.
use nv_resource_controller.Prelude.{
  ℕ, ◌/◌, ◌^◌, ◌<◌, ◌≡◌, refl, ap, ◌∙◌, Bool, false, not, ◌&&◌, ◌||◌, ◌==◌, leb, if◌then◌else◌,
  Option, none, some, List, [], ◌∷◌, ◌++◌, map, take, drop, arith, Bool-cases, inl, inr,
}
use nv_resource_controller.Prelude.Int.{ℤ, pos, is_nonzero}
use nv_resource_controller.Prelude.Run.{Returns, Returns-mono}
use nv_resource_controller.Platform.{Platform}
use nv_resource_controller.Hook.Types.{FbInfo, RmMem}
use nv_resource_controller.Hook.Memory.{Object, missing, empty, holds, Memory}
use nv_resource_controller.Util.ShmAddr.Up.{IsUp, opened}
use nv_resource_controller.Ioctl.Params.{FbEntry, FbList}
use nv_resource_controller.Ioctl.Account.{IsSteady}
use nv_resource_controller.Ioctl.Alloc.{no_device, find_device}
use nv_resource_controller.Ioctl.Control.{
  FbCalls, fb_kib, zeroed_fb, unknown_free, fill, post_rm_control_fb_get_info,
}
use nv_resource_controller.Ioctl.Control.Fill.{reported}
use nv_resource_controller.Ioctl.Control.Steady.{Fits, Answers, post_rm_control_fb_get_info-Answers}

-- The account of a device that an application is told of: none where no object holds one that a
-- process has taken.
abbrev pub taken_account : Object FbInfo → Option FbInfo
taken_account missing = none
taken_account empty = none
taken_account (holds fb) = if fb.pid == 0 then none else some fb

-- In KiB: the free memory for `HEAP_FREE`, but only where `readlink` on the owner returns 0; the
-- whole memory for that index otherwise, and for `TOTAL_RAM_SIZE` and `HEAP_SIZE`, if it is at least
-- 1 KiB; nothing for other indices.
abbrev pub kib_for : Platform → (unread : Bool) → FbInfo → (index : ℕ) → Option ℕ
kib_for os unread fb index =
    if (index == os.abi.index_heap_free) && unread
    then some (fb.free_mem / 1024)
    else if ((index == os.abi.index_heap_free)
          || ((index == os.abi.index_heap_size) || (index == os.abi.index_total_ram_size)))
        && leb 1024 fb.total_mem
    then some (fb.total_mem / 1024)
    else none

abbrev pub with_value : Platform → FbEntry → Option ℕ → FbEntry
with_value os info none = info
with_value os info (some n) = record info { value = os.abi.to_data n }

-- The entry that the application gets back.
abbrev pub told : Platform → (ℕ → ℤ) → Option FbInfo → FbEntry → FbEntry
told os readlink none info = info
told os readlink (some fb) info =
    with_value os info (kib_for os (not (is_nonzero (readlink fb.pid))) fb info.index)

-- The device of the first object that was recorded under the handle, from the head of the list.
abbrev pub device_recorded : ℕ → List (ℕ × RmMem) → Option ℕ
device_recorded handle [] = none
device_recorded handle ((_, entry) ∷ xs) =
    if entry.object == handle then some entry.device_id else device_recorded handle xs

-- The whole list that the application gets back: the entries that the count covers are told, of a
-- device that is known and not -1.
abbrev pub told_list : Platform → (ℕ → ℤ) → (ℕ → Object FbInfo) → Option ℕ → FbList → FbList
told_list os readlink shm none params = params
told_list os readlink shm (some device_id) params =
    if device_id == no_device then params else record params {
      fb_info_list =
          map (told os readlink (taken_account (shm device_id)))
            (take params.fb_info_list_size params.fb_info_list)
          ++ drop params.fb_info_list_size params.fb_info_list;
    }

fill_lem :
    (os : Platform) (readlink : ℕ → ℤ) (fb : FbInfo) (info : FbEntry)
    → fb.free_mem < 2 ^ 64
    → let unread : Bool = is_nonzero (readlink fb.pid) in
      fill os (fb.total_mem / 1024) (if unread then unknown_free else fb.free_mem / 1024) info
      ≡ told os readlink (some fb) info
unfolding fill
fill_lem os readlink fb info word = elim (Bool-cases (info.index == os.abi.index_heap_free)) [
  | inl e ↦
      let index : (info.index ≡ os.abi.index_heap_free) = ground arith in
      let r : ((info.index == os.abi.index_total_ram_size) ≡ false) =
        ground (arith, os.abi.total_ram-ne-heap_free) in
      let s : ((info.index == os.abi.index_heap_size) ≡ false) =
        ground (arith, os.abi.heap_size-ne-heap_free) in
      elim (Bool-cases (is_nonzero (readlink fb.pid))) [
        | inl u ↦ rw (e, r, s, u) (ground arith)
        | inr u ↦ rw (e, r, s, u) (ground arith)
      ]
  | inr e ↦ rw e (ground arith)
]

fill_untaken : (os : Platform) (info : FbEntry) → fill os 0 unknown_free info ≡ info
unfolding fill
fill_untaken os info = ground arith

-- The entry that an object of the right size makes of it.
fill_object :
    (os : Platform) (readlink : ℕ → ℤ) (o : Object FbInfo) (info : FbEntry)
    → ((fb : FbInfo) → o ≡ holds fb → fb.free_mem < 2 ^ 64)
    → let r = fb_kib readlink (opened zeroed_fb o) in
      fill os r.0 r.1 info ≡ told os readlink (taken_account o) info
fill_object os readlink missing info word = fill_untaken os info
fill_object os readlink empty info word = fill_untaken os info
fill_object os readlink (holds fb) info word = elim (Bool-cases (fb.pid == 0)) [
  | inl e ↦ rw e (fill_untaken os info)
  | inr e ↦ rw e (fill_lem os readlink fb info (word fb refl))
]

map_same :
    {A B : Type 0} (f g : A → B) → ((x : A) → f x ≡ g x) → (xs : List A) → map f xs ≡ map g xs
map_same f g h [] = refl
map_same f g h (x ∷ xs) = let e = h x in let rest = map_same f g h xs in cc

-- The code's search gives -1 for a handle that nothing was recorded under.
device_or : Option ℕ → ℕ
device_or none = no_device
device_or (some n) = n

find_device_lem :
    (handle : ℕ) (xs : List (ℕ × RmMem))
    → find_device handle xs ≡ device_or (device_recorded handle xs)
unfolding find_device device_or
find_device_lem handle [] = refl
find_device_lem handle ((p, entry) ∷ xs) = elim (Bool-cases (entry.object == handle)) [
  | inl e ↦ rw e refl
  | inr e ↦ rw e (find_device_lem handle xs)
]

module _ {os : Platform} (sys : FbCalls) (m : Memory os) where
  reported_lem :
      (device : Option ℕ) (params : FbList)
      → ((j : ℕ) (fb : FbInfo) → m.shm j ≡ holds fb → fb.free_mem < 2 ^ 64)
      → reported sys (device_or device) m params ≡ told_list os sys.readlink m.shm device params
  unfolding device_or
  reported_lem none params words = refl
  reported_lem (some device_id) params words = elim (Bool-cases (device_id == no_device)) [
    | inl e ↦ rw e refl
    | inr e ↦ rw e (
        ap
          (λ xs. record params {
            fb_info_list = xs ++ drop params.fb_info_list_size params.fb_info_list;
          })
          (map_same _ _
            (λ info. fill_object os sys.readlink (m.shm device_id) info (words device_id))
            (take params.fb_info_list_size params.fb_info_list)))
  ]

  -- What the application gets back, and that the account is in order.
  abbrev pub Tells : (k q : ℕ) → ℕ → FbList → ℤ × FbList → Memory os → Type 0
  Tells k q handle params (ret, params') m' =
      (ret ≡ pos 0)
      × (params'
          ≡ told_list os sys.readlink m.shm
              (device_recorded handle (os.rm.entries m.dev.rm_mem_list)) params)
      × IsSteady k q m'

  -- From an account in order, where no call on shared memory fails, there is memory for the entries
  -- that the count covers and free memory is a word in every account, `post_rm_control_fb_get_info`
  -- returns 0 and keeps the account in order. Where the handle belongs to a device whose account a
  -- process has taken, each entry that the count covers gets the KiB of `kib_for`: the whole memory
  -- for `TOTAL_RAM_SIZE` and `HEAP_SIZE`, and for `HEAP_FREE` the free memory if `readlink` on the
  -- owner returns 0, the whole memory otherwise. All else stays as it is.
  pub post_rm_control_fb_get_info_lem :
      (k q handle : ℕ) (params : FbList)
      → IsUp sys.shm_calls
      → IsSteady k q m
      → Fits params
      → ((j : ℕ) (fb : FbInfo) → m.shm j ≡ holds fb → fb.free_mem < 2 ^ 64)
      → Returns (Tells k q handle params) (post_rm_control_fb_get_info sys handle params m)
  post_rm_control_fb_get_info_lem k q handle params up s fits words =
      let xs = os.rm.entries m.dev.rm_mem_list in
      let device : (find_device handle xs ≡ device_or (device_recorded handle xs)) =
        find_device_lem handle xs in
      Returns-mono (Answers k q sys handle params m) (Tells k q handle params)
        (post_rm_control_fb_get_info sys handle params m)
        (post_rm_control_fb_get_info-Answers sys m up s handle params fits)
        λ r m' a. (
          a.0,
          a.1.0
              ∙ ap (λ d. reported sys d m params) device
              ∙ reported_lem (device_recorded handle xs) params words,
          a.1.1.0,
        )
