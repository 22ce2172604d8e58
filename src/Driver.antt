-- ===== src/Driver.antt =====
-- source/driver.cpp: the registry of drivers and their save areas. The array of 32 slots is a list;
-- the lock makes each call atomic. A callback that a call makes is part of its answer.
pub mod Areas
pub mod Apart
pub mod Survival
mod Tests
use coreinit_nx.Base.{
  ℕ, suc, zero, Bool, true, false, not, ◌&&◌, ◌||◌, List, [], ◌∷◌, ◌++◌, Option, none, some, ltb,
  ◌==◌, if◌then◌else◌, take, replicate, length,
}
use mathlib.Core.List
use coreinit_nx.Base.Int.{ℤ, pos, negsuc}

-- The callbacks that the registry reads of an `OSDriverInterface`, 0 for null.
pub record Interface : Type 0 where
  pub on_init : ℕ
  pub on_done : ℕ

pub record RegisteredDriver : Type 0 where
  pub module_handle : ℕ
  pub user_driver_id : ℕ
  pub iface : Interface
  pub save_area : List ℕ
  pub save_area_used : ℕ
  pub used : Bool

-- `kSaveAreaSize`, `kMaxDrivers`.
abbrev pub save_area_size : ℕ
save_area_size = 256

abbrev pub max_drivers : ℕ
max_drivers = 32

abbrev pub unused : RegisteredDriver
unused = record {
  module_handle = 0;
  user_driver_id = 0;
  iface = record { on_init = 0; on_done = 0 };
  save_area = replicate save_area_size 0;
  save_area_used = 0;
  used = false;
}

-- Does this slot hold the driver of an id?
abbrev pub is_driver : ℕ → RegisteredDriver → Bool
is_driver id d = d.used && d.user_driver_id == id

-- `find`: the first slot of the driver.
pub find_driver : ℕ → List RegisteredDriver → Option RegisteredDriver
find_driver id [] = none
find_driver id (d ∷ ds) = if is_driver id d then some d else find_driver id ds

-- The slot that `find` points at, changed in place.
pub at_driver :
    ℕ → (RegisteredDriver → RegisteredDriver) → List RegisteredDriver → List RegisteredDriver
at_driver id f [] = []
at_driver id f (d ∷ ds) = if is_driver id d then f d ∷ ds else d ∷ at_driver id f ds

-- The first slot that is not used, filled: `none` if all are used.
pub fill_slot : RegisteredDriver → List RegisteredDriver → Option (List RegisteredDriver)
fill_slot new [] = none
fill_slot new (d ∷ ds) =
    if d.used
    then elim (fill_slot new ds) [ none ↦ none | some r ↦ some (d ∷ r) ]
    else some (new ∷ ds)

-- `OSDriver_Register`: the answer, and the callback that is made with the id, if any.
pub register :
    List RegisteredDriver → ℕ → Option Interface → ℕ → List RegisteredDriver × (ℤ × Option ℕ)
register ds module_handle none id = (ds, (negsuc 0, none))
register ds module_handle (some iface) id =
    let new : RegisteredDriver = record {
      module_handle = module_handle;
      user_driver_id = id;
      iface = iface;
      save_area = replicate save_area_size 0;
      save_area_used = 0;
      used = true;
    } in
    elim (fill_slot new ds) [
      | none ↦ (ds, (negsuc 0, none))
      | some ds' ↦ (ds', (pos 0, if iface.on_init == 0 then none else some iface.on_init))
    ]

pub deregister : List RegisteredDriver → ℕ → List RegisteredDriver × ℤ
deregister ds id = elim (find_driver id ds) [
  | none ↦ (ds, negsuc 0)
  | some d ↦ (at_driver id (λ d. record d { used = false }) ds, pos 0)
]

-- `memcpy` of bytes to the front of an area.
pub overwrite : List ℕ → List ℕ → List ℕ
overwrite [] area = area
overwrite (b ∷ bs) [] = []
overwrite (b ∷ bs) (a ∷ area) = b ∷ overwrite bs area

-- `OSDriver_CopyToSaveArea` of the bytes given; `none` is a null pointer.
pub copy_to_save_area : List RegisteredDriver → ℕ → Option (List ℕ) → List RegisteredDriver × ℤ
copy_to_save_area ds id none = (ds, negsuc 0)
copy_to_save_area ds id (some bytes) =
    if ltb save_area_size (length bytes) then (ds, negsuc 0) else elim (find_driver id ds) [
      | none ↦ (ds, negsuc 0)
      | some d ↦ (
        at_driver id
            (λ d. record d {
              save_area = overwrite bytes d.save_area;
              save_area_used = length bytes;
            })
            ds,
        pos 0,
      )
    ]

-- `OSDriver_CopyFromSaveArea`: the bytes copied out, if any.
pub copy_from_save_area : List RegisteredDriver → ℕ → ℕ → Option (List ℕ)
copy_from_save_area ds id size =
    if ltb save_area_size size
    then none
    else elim (find_driver id ds) [ none ↦ none | some d ↦ some (take size d.save_area) ]

-- `coreinitNxDriverShutdown`: every slot is freed, and the callbacks are made in order, each with its id.
pub shutdown : List RegisteredDriver → List RegisteredDriver × List (ℕ × ℕ)
shutdown [] = ([], [])
shutdown (d ∷ ds) =
    let (ds', calls) = shutdown ds in
    (
      record d { used = false } ∷ ds',
      if d.used && not (d.iface.on_done == 0)
          then (d.iface.on_done, d.user_driver_id) ∷ calls
          else calls,
    )
