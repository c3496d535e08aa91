-- ===== src/Util/ShmAddr/Up.antt =====
-- `create_shm_addr` where no call of it fails, on objects that are all sized.
use nv_resource_controller.Prelude.{ℕ, ◌≡◌, ◌≢◌, refl, false, some, arith}
use nv_resource_controller.Hook.Memory.{Object, missing, empty, holds, Shm}
use nv_resource_controller.Util.ShmAddr.{ShmCalls, mapped, ShmAddr, find_object, create_shm_addr}

pub record IsUp (sys : ShmCalls) : Type 0 where
  pub excl : sys.excl_fails ≡ false
  pub open' : sys.open_fails ≡ false
  pub truncate : sys.truncate_fails ≡ false
  pub map : sys.map_fails ≡ false

-- What is read through the mapping: a new object is all zeros.
abbrev pub opened : {D : Type 0} → D → Object D → D
opened zeroed missing = zeroed
opened zeroed empty = zeroed
opened zeroed (holds d) = d

abbrev pub AllSized : {D : Type 0} → Shm D → Type 0
AllSized shm = (j : ℕ) → shm j ≢ empty

-- The object is mapped and holds what it held, or zeros; every other object is as before.
pub record Opens {D : Type 0} (zeroed : D) (k : ℕ) (shm : Shm D) (r : ShmAddr D) : Type 0 where
  pub addr : r.addr ≡ mapped k
  pub share_addr : r.share_data.addr ≡ some k
  pub object : r.shm k ≡ holds (opened zeroed (shm k))
  pub others : (j : ℕ) → j ≢ k → r.shm j ≡ shm j

module _ {D : Type 0} (zeroed : D) (sys : ShmCalls) (up : IsUp sys) where
  find_object-Opens :
      (k : ℕ) (o : Object D) (shm : Shm D)
      → shm k ≡ o
      → o ≢ empty
      → Opens zeroed k shm (find_object zeroed sys k o shm)
  unfolding find_object
  find_object-Opens k missing shm e ne = record {
    addr = ground arith;
    share_addr = ground arith;
    object = ground arith;
    others = λ j d. ground arith;
  }
  find_object-Opens k empty shm e ne = absurd (ne refl)
  find_object-Opens k (holds d) shm e ne = record {
    addr = ground arith;
    share_addr = ground arith;
    object = ground arith;
    others = λ j d. ground arith;
  }

  -- Where no call fails and every object is sized, `create_shm_addr` maps object `k` and leaves in it
  -- what it held, or zeros where it was not there; the other objects do not change.
  pub create_shm_addr-Opens :
      (k : ℕ) (shm : Shm D) → AllSized shm → Opens zeroed k shm (create_shm_addr zeroed sys k shm)
  unfolding create_shm_addr
  create_shm_addr-Opens k shm sized = simp up.excl (find_object-Opens k (shm k) shm refl (sized k))

-- What an open leaves: no object of size 0, and no other contents than before.
module _ {D : Type 0} {zeroed : D} {k : ℕ} {shm : Shm D} {r : ShmAddr D}
    (o : Opens zeroed k shm r) where
  pub AllSized-Opens : AllSized shm → AllSized r.shm
  AllSized-Opens sized j = ground (arith, sized j, o.others j)

  pub holds-Opens : (j : ℕ) (d : D) → shm j ≡ holds d → r.shm j ≡ holds d
  holds-Opens j d e = ground (arith, o.others j)
