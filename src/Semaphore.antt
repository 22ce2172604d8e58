-- ===== src/Semaphore.antt =====
-- source/semaphore.cpp: counting semaphores. The semaphore's lock makes each call one step up to
-- where it waits. The count is an `int32_t`, taken as an
-- integer: a signal at `INT32_MAX`, which C++ leaves undefined, is excluded where runs are counted.
pub mod Counting
mod Tests
use coreinit_nx.Base.{ℕ, Bool, true, false, Option, none, some, ◌==◌, if◌then◌else◌}
use coreinit_nx.Base.Int.{ℤ, pos, leb_ℤ, ltb_ℤ, ◌+ℤ◌, ◌-ℤ◌}
use coreinit_nx.Handles.{HandleTable, with_host}

pub record HostSemaphore : Type 0 where
  pub count : ℤ

-- `HostSemaphore::init`.
abbrev pub fresh : HostSemaphore
fresh = record { count = pos 0 }

pub init : ℤ → HostSemaphore
init count = record { count = count }

-- The count from before, for each operation. A signal wakes every thread that waits.
pub signal : HostSemaphore → HostSemaphore × ℤ
signal s = (record { count = s.count +ℤ pos 1 }, s.count)

-- One test of the loop of `OSWaitSemaphore`: `none` is a thread that waits.
pub wait : HostSemaphore → HostSemaphore × Option ℤ
wait s =
    if leb_ℤ s.count (pos 0) then (s, none) else (record { count = s.count -ℤ pos 1 }, some s.count)

pub try_wait : HostSemaphore → HostSemaphore × ℤ
try_wait s = (if ltb_ℤ (pos 0) s.count then record { count = s.count -ℤ pos 1 } else s, s.count)

abbrev pub Semaphores : Type 0
Semaphores = HandleTable HostSemaphore

pub os_init_semaphore : Semaphores → ℕ → ℤ → Semaphores
unfolding init
os_init_semaphore t semaphore count =
    if semaphore == 0 then t else (with_host {0, 0} fresh (λ s. (init count, tt)) semaphore t).0

pub os_get_semaphore_count : Semaphores → ℕ → Semaphores × ℤ
os_get_semaphore_count t semaphore =
    if semaphore == 0 then (t, pos 0) else with_host fresh (λ s. (s, s.count)) semaphore t

pub os_signal_semaphore : Semaphores → ℕ → Semaphores × ℤ
os_signal_semaphore t semaphore =
    if semaphore == 0 then (t, pos 0) else with_host fresh signal semaphore t

pub os_wait_semaphore : Semaphores → ℕ → Semaphores × Option ℤ
os_wait_semaphore t semaphore =
    if semaphore == 0 then (t, some (pos 0)) else with_host fresh wait semaphore t

pub os_try_wait_semaphore : Semaphores → ℕ → Semaphores × ℤ
os_try_wait_semaphore t semaphore =
    if semaphore == 0 then (t, pos 0) else with_host fresh try_wait semaphore t
