-- ===== src/Thread/Api.antt =====
-- The exported calls of source/thread.cpp that work on one thread: each finds it by its address.
use coreinit_nx.Base.{ℕ, Bool, true, Option, none, some, ◌==◌, if◌then◌else◌}
use coreinit_nx.Base.Int.{ℤ}
use coreinit_nx.Handles.{HandleTable, with_host}
use coreinit_nx.Thread.{
  HostThread, fresh, create_thread, resume, suspend, join, set_cleanup, set_deallocator,
  set_priority, set_affinity, set_name, cancel, detach, is_terminated,
}

abbrev pub Threads : Type 0
Threads = HandleTable HostThread

pub os_create_thread : (creates : ℤ → Bool) → Threads → ℕ → ℕ → ℤ → ℕ → ℕ → ℕ → ℤ → ℕ → Threads × ℕ
os_create_thread creates t thread entry argc argv stack stack_size priority attributes =
    with_host fresh
      (create_thread creates thread entry argc argv stack stack_size priority attributes) thread t

pub os_resume_thread : Bool → Threads → ℕ → Threads × ℤ
os_resume_thread starts t thread = with_host fresh (resume starts) thread t

pub os_suspend_thread : Threads → ℕ → Threads × ℤ
os_suspend_thread t thread = with_host fresh suspend thread t

pub os_join_thread : Bool → Threads → ℕ → Threads × (ℕ × Option ℤ)
os_join_thread exits t thread = with_host fresh (join exits) thread t

-- `OSGetCurrentThread` of a thread that the library did not create: the main thread, set up on first use.
pub main_thread : ℕ → HostThread → HostThread × ℕ
main_thread address h = (
  if h.guest == 0 then record h { guest = address; created = true; started = true } else h,
  address,
)

pub os_get_current_thread : ℕ → Option HostThread → Threads → Threads × ℕ
os_get_current_thread main none t = with_host fresh (main_thread main) main t
os_get_current_thread main (some h) t = (t, h.guest)

pub os_set_thread_cleanup_callback : Threads → ℕ → ℕ → Threads × ℕ
os_set_thread_cleanup_callback t thread callback = with_host fresh (set_cleanup callback) thread t

pub os_set_thread_deallocator : Threads → ℕ → ℕ → Threads × ℕ
os_set_thread_deallocator t thread fn = with_host fresh (set_deallocator fn) thread t

pub os_get_thread_priority : Threads → ℕ → Threads × ℤ
os_get_thread_priority t thread = with_host fresh (λ h. (h, h.cafe_priority)) thread t

pub os_set_thread_priority : Threads → ℕ → ℤ → Threads × ℕ
os_set_thread_priority t thread priority = with_host fresh (set_priority priority) thread t

pub os_get_thread_affinity : Threads → ℕ → Threads × ℕ
os_get_thread_affinity t thread = with_host fresh (λ h. (h, h.cafe_affinity)) thread t

pub os_set_thread_affinity : Threads → ℕ → ℕ → Threads × ℕ
os_set_thread_affinity t thread affinity = with_host fresh (set_affinity affinity) thread t

pub os_get_thread_name : Threads → ℕ → Threads × ℕ
os_get_thread_name t thread = with_host fresh (λ h. (h, h.name)) thread t

pub os_set_thread_name : Threads → ℕ → ℕ → Threads
os_set_thread_name t thread name = (with_host {0, 0} fresh (λ h. (set_name name h, tt)) thread t).0

pub os_cancel_thread : Threads → ℕ → Threads
os_cancel_thread t thread =
    if thread == 0 then t else (with_host {0, 0} fresh (λ h. (cancel h, tt)) thread t).0

pub os_detach_thread : Threads → ℕ → Threads
os_detach_thread t thread =
    if thread == 0 then t else (with_host {0, 0} fresh (λ h. (detach h, tt)) thread t).0

pub os_is_thread_terminated : Threads → ℕ → Threads × ℕ
os_is_thread_terminated t thread = with_host fresh (λ h. (h, is_terminated h)) thread t
