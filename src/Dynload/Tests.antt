-- ===== src/Dynload/Tests.antt =====
-- The registry of coreinit, with no module acquired yet.
use coreinit_nx.Base.{ℕ, ◌≡◌, refl, true, false, List, [], ◌∷◌, some}
use coreinit_nx.Dynload.{
  data_export, LoadedModule, ok, has_library, base_name, cut_rpl, acquire, acquire_again,
  acquire_slot, find_export,
}
use coreinit_nx.Base.Text.{codes}
use coreinit_nx.Dynload.Exports.{k_exports, export_data}
use coreinit_nx.Dynload.Registry.{coreinit_resolves}

abbrev slots : List LoadedModule
slots = record { name = []; ref_count = 0; used = false } ∷ []

-- The linker gives every name the address 0x7000.
abbrev linked : List ℕ → ℕ
linked name = 0x7000

abbrev coreinit_acquired : List LoadedModule
coreinit_acquired = record { name = codes "coreinit"; ref_count = 1; used = true } ∷ []

coreinit_resolves_example :
    find_export (k_exports linked) coreinit_acquired 0 data_export (codes "MEMAllocFromDefaultHeap")
    ≡ (ok, some 0x7000)
unfolding acquire has_library base_name cut_rpl acquire_again acquire_slot k_exports
coreinit_resolves_example =
    coreinit_resolves linked (codes "coreinit.rpl") slots coreinit_acquired 0 70
      (export_data linked "coreinit" "MEMAllocFromDefaultHeap") refl refl
