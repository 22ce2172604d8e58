-- ===== src/Thread.antt =====
-- source/thread.cpp: the life of a thread as the guest sees it. Pointers of the guest are numbers, 0
-- for null. Whether a call of Horizon succeeds, and what it answers, is an argument. The counts and
-- priorities are `int32_t`, taken as integers.
pub mod Life
pub mod Mapping
pub mod Api
pub mod Trampoline
pub mod Cycle
pub mod Truth
pub mod Results
mod Tests
use coreinit_nx.Base.{
  ℕ, ◌+◌, ◌*◌, ◌/◌, ◌%◌, ◌^◌, Bool, true, false, not, ◌&&◌, ◌||◌, List, Option, none, some, ltb,
  leb, ◌==◌, if◌then◌else◌, bit_and, get_or, set, length,
}
use coreinit_nx.Base.Int.{ℤ, pos, negsuc, ◌+ℤ◌, ◌-ℤ◌, ltb_ℤ, eqb_ℤ, is_neg, nat_abs}
use coreinit_nx.Align.{align_up}
use coreinit_nx.Handles.{HandleTable, with_host}

pub record HostThread : Type 0 where
  pub guest : ℕ
  pub entry : ℕ
  pub argc : ℤ
  pub argv : ℕ
  pub guest_stack : ℕ
  pub guest_stack_size : ℕ
  pub exit_result : ℤ
  pub suspend_count : ℤ
  pub cleanup : ℕ
  pub created : Bool
  pub started : Bool
  pub detached : Bool
  pub cafe_priority : ℤ
  pub cafe_affinity : ℕ
  pub name : ℕ
  pub deallocator : ℕ
  pub cancel_requested : Bool
  pub cancel_enabled : Bool

-- OS_THREAD_ATTRIB_AFFINITY_ANY, and the bits of it.
abbrev pub affinity_any : ℕ
affinity_any = 7

-- OS_THREAD_ATTRIB_DETACHED.
abbrev pub detached_bit : ℕ
detached_bit = 8

-- `HostThread::init`.
abbrev pub fresh : HostThread
fresh = record {
  guest = 0;
  entry = 0;
  argc = pos 0;
  argv = 0;
  guest_stack = 0;
  guest_stack_size = 0;
  exit_result = pos 0;
  suspend_count = pos 0;
  cleanup = 0;
  created = false;
  started = false;
  detached = false;
  cafe_priority = pos 16;
  cafe_affinity = affinity_any;
  name = 0;
  deallocator = 0;
  cancel_requested = false;
  cancel_enabled = true;
}

-- The priority of the game cut to 0 .. 31.
pub clamp : ℤ → ℕ
clamp (pos p) = if ltb 31 p then 31 else p
clamp (negsuc n) = 0

-- `mapPriority`, with the priority of the process. C++ divides towards 0.
pub map_priority : ℤ → ℤ → ℤ
unfolding clamp
map_priority process_priority p =
    let span = pos 0x3F -ℤ process_priority in
    let part = clamp p * nat_abs span / 31 in
    if is_neg span then process_priority -ℤ pos part else process_priority +ℤ pos part

-- `mapAffinity`: a core, or -2 for any.
pub map_affinity : ℕ → ℤ
map_affinity attributes =
    let mask = bit_and attributes affinity_any in
    if mask == 0 || mask == affinity_any
    then negsuc 1
    else if not (bit_and mask 1 == 0)
    then pos 0
    else if not (bit_and mask 2 == 0)
    then pos 1
    else pos 2

abbrev pub page_size : ℕ
page_size = 0x1000

abbrev pub min_host_stack : ℕ
min_host_stack = 0x10000

pub host_stack_size : ℕ → ℕ
host_stack_size guest_stack_size =
    align_up (if ltb guest_stack_size min_host_stack then min_host_stack else guest_stack_size)
      page_size

-- `OSCreateThread`. `creates cpu` is whether `threadCreate` succeeds on a core.
pub create_thread :
    (creates : ℤ → Bool) → ℕ → ℕ → ℤ → ℕ → ℕ → ℕ → ℤ → ℕ → HostThread → HostThread × ℕ
create_thread creates thread entry argc argv stack stack_size priority attributes h =
    let cpu = map_affinity attributes in
    let ok = creates cpu || (not (eqb_ℤ cpu (negsuc 1)) && creates (negsuc 1)) in
    (
      record h {
        entry = entry;
        argc = argc;
        argv = argv;
        guest_stack = stack;
        guest_stack_size = stack_size;
        exit_result = pos 0;
        suspend_count = pos 1;
        started = false;
        detached = not (bit_and attributes detached_bit == 0);
        guest = thread;
        cafe_priority = priority;
        cafe_affinity = bit_and attributes affinity_any;
        name = 0;
        deallocator = 0;
        cleanup = 0;
        created = ok;
      },
      if ok then 1 else 0,
    )

-- `OSResumeThread`, with whether `threadStart` would succeed.
pub resume : Bool → HostThread → HostThread × ℤ
resume starts h =
    let count =
      if ltb_ℤ (pos 0) h.suspend_count then h.suspend_count -ℤ pos 1 else h.suspend_count in
    let begins = eqb_ℤ count (pos 0) && h.created && not h.started && starts in
    (record h { suspend_count = count; started = h.started || begins }, h.suspend_count)

pub suspend : HostThread → HostThread × ℤ
suspend h = (record h { suspend_count = h.suspend_count +ℤ pos 1 }, h.suspend_count)

-- `OSJoinThread`, with whether `threadWaitForExit` succeeds: the answer, and the result handed out.
pub join : Bool → HostThread → HostThread × (ℕ × Option ℤ)
join exits h =
    if not h.created || not h.started || h.detached
    then (h, (0, none))
    else if not exits
    then (h, (0, none))
    else (record h { started = false; created = false }, (1, some h.exit_result))

-- What `trampoline` sets when the entry point has answered.
pub finish : ℤ → HostThread → HostThread
finish result h = record h { exit_result = result }

pub set_cleanup : ℕ → HostThread → HostThread × ℕ
set_cleanup callback h = (record h { cleanup = callback }, h.cleanup)

pub set_deallocator : ℕ → HostThread → HostThread × ℕ
set_deallocator fn h = (record h { deallocator = fn }, h.deallocator)

pub set_priority : ℤ → HostThread → HostThread × ℕ
set_priority priority h = (record h { cafe_priority = priority }, 1)

pub set_affinity : ℕ → HostThread → HostThread × ℕ
set_affinity affinity h = (record h { cafe_affinity = bit_and affinity affinity_any }, 1)

pub set_name : ℕ → HostThread → HostThread
set_name name h = record h { name = name }

pub cancel : HostThread → HostThread
cancel h = record h { cancel_requested = true }

-- `OSTestThreadCancel` of the running thread: whether it ends.
pub test_cancel : HostThread → Bool
test_cancel h = h.cancel_requested && h.cancel_enabled

-- `OSSetThreadCancelState` of the running thread, which is `none` if the library did not create it.
pub set_cancel_state : ℤ → Option HostThread → Option HostThread × ℕ
set_cancel_state state none = (none, 1)
set_cancel_state state (some h) = (
  some (record h { cancel_enabled = not (eqb_ℤ state (pos 0)) }),
  if h.cancel_enabled then 1 else 0,
)

pub detach : HostThread → HostThread
detach h = record h { detached = true }

pub is_terminated : HostThread → ℕ
is_terminated h = if h.created && not h.started then 1 else 0

-- `OSGetCoreId`, with the core that Horizon tells.
pub core_id : ℕ → ℕ
core_id id = if ltb 2 id then 2 else id

-- The thread's own slots: `t_specific`, 16 of them.
pub get_specific : List ℕ → ℤ → ℕ
get_specific slots id = if is_neg id || leb 16 (nat_abs id) then 0 else get_or slots (nat_abs id) 0

pub set_specific : List ℕ → ℤ → ℕ → List ℕ
set_specific slots id value =
    if is_neg id || leb 16 (nat_abs id) then slots else set slots (nat_abs id) value
