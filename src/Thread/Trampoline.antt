-- ===== src/Thread/Trampoline.antt =====
-- The end of a thread in source/thread.cpp: `trampoline`, and OSExitThread. What the game's functions do
-- to the thread's own record is an argument.
use coreinit_nx.Base.{ℕ, Option, none, some, ◌==◌, if◌then◌else◌}
use coreinit_nx.Base.Int.{ℤ}
use coreinit_nx.Thread.{HostThread, finish}

-- The entry point by its address, with argc and argv, and a callback, with the thread and its stack.
pub record Game : Type 0 where
  pub entry : ℕ → ℤ → ℕ → HostThread → HostThread × ℤ
  pub callback : ℕ → ℕ → ℕ → HostThread → HostThread

module _ (game : Game) where
  -- A callback that is set, read when its turn comes.
  abbrev pub run_callback : ℕ → HostThread → HostThread
  run_callback fn h = if fn == 0 then h else game.callback fn h.guest h.guest_stack h

  pub trampoline : HostThread → HostThread
  trampoline h =
      let (h', result) = game.entry h.entry h.argc h.argv h in
      let cleaned = run_callback (finish result h').cleanup (finish result h') in
      run_callback cleaned.deallocator cleaned

-- `OSExitThread` of the running thread, which is `none` if the library did not create it; the callbacks
-- are not called.
unfoldable pub exit_thread : ℤ → Option HostThread → Option HostThread
exit_thread result none = none
exit_thread result (some h) = some (record h { exit_result = result })
