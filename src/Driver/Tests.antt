-- ===== src/Driver/Tests.antt =====
-- Driver 7 stores three bytes, then driver 8 is registered, stores one and is given up.
use coreinit_nx.Base.{◌≡◌, refl, List, [], ◌∷◌, some, replicate, arith}
use coreinit_nx.Driver.{
  unused, max_drivers, find_driver, fill_slot, register, copy_to_save_area, copy_from_save_area,
}
use coreinit_nx.Driver.Apart.{Call, registers, deregisters, copies_to, step, run, new_driver}
use coreinit_nx.Driver.Survival.{stored_survives}

abbrev before : List Call
before = registers 1 (some (record { on_init = 0; on_done = 0 })) 7 ∷ []

abbrev after : List Call
after =
    registers 2 (some (record { on_init = 0; on_done = 0 })) 8
    ∷ copies_to 8 (some (9 ∷ []))
    ∷ deregisters 8
    ∷ []

registered :
    find_driver 7 (run (replicate max_drivers unused) before)
    ≡ some (new_driver 1 (record { on_init = 0; on_done = 0 }) 7)
unfolding run step register fill_slot find_driver
registered = refl

stored_survives_example :
    copy_from_save_area
      (run
        (copy_to_save_area (run (replicate max_drivers unused) before) 7 (some (1 ∷ 2 ∷ 3 ∷ []))).0
        after)
      7
      3
    ≡ some (1 ∷ 2 ∷ 3 ∷ [])
stored_survives_example =
    stored_survives before after 7 (new_driver 1 (record { on_init = 0; on_done = 0 }) 7)
      (1 ∷ 2 ∷ 3 ∷ []) registered (omega arith) (omega arith, (omega arith, (omega arith, tt)))
