-- ===== src/Event.antt =====
-- source/event.cpp: events of manual and of automatic reset. The event's lock makes each call one
-- step up to where it waits; a thread that waits makes the test again when it is woken.
pub mod Waking
mod Tests
use coreinit_nx.Base.{
  ℕ, ◌+◌, ◌*◌, ◌/◌, ◌%◌, ◌^◌, Bool, true, false, not, Option, none, some, leb, ◌==◌, if◌then◌else◌,
}
use coreinit_nx.Base.Int.{ℤ, pos, negsuc, eqb_ℤ}
use coreinit_nx.Handles.{HandleTable, with_host}

pub record HostEvent : Type 0 where
  pub signalled : Bool
  pub auto_reset : Bool

-- `HostEvent::init`.
abbrev pub fresh : HostEvent
fresh = record { signalled = false; auto_reset = false }

-- `OS_EVENT_MODE_AUTO`.
abbrev pub mode_auto : ℕ
mode_auto = 1

pub init : ℤ → ℕ → HostEvent
init value mode = record { signalled = not (eqb_ℤ value (pos 0)); auto_reset = mode == mode_auto }

-- The number of threads woken is left out: whoever wakes tests anew.
pub signal : HostEvent → HostEvent
signal e = record e { signalled = true }

pub signal_all : HostEvent → HostEvent
signal_all e =
    let lit = record e { signalled = true } in
    if e.auto_reset then record lit { signalled = false } else lit

-- What a thread does that finds the event signalled.
abbrev pub pass : HostEvent → HostEvent
pass e = if e.auto_reset then record e { signalled = false } else e

-- One test of the loop of `OSWaitEvent`: whether the thread gets through.
pub wait : HostEvent → HostEvent × Bool
wait e = if e.signalled then (pass e, true) else (e, false)

pub reset : HostEvent → HostEvent
reset e = record e { signalled = false }

-- The deadline of a wait that starts at a reading of the system's counter, in unsigned 64 bits.
pub deadline : ℤ → ℕ → ℕ
deadline (pos timeout) now =
    let ns = timeout * 32000 % 2 ^ 64 / 1989 in (now + ns * 192 % 2 ^ 64 / 10000) % 2 ^ 64
deadline (negsuc n) now = now % 2 ^ 64

-- One turn of the loop of `OSWaitEventWithTimeout` at a reading of the counter: the answer, or
-- `none` for a thread that waits another millisecond.
pub timed_wait : HostEvent → ℕ → ℕ → HostEvent × Option ℕ
timed_wait e due now =
    if e.signalled then (pass e, some 1) else (e, if leb due now then some 0 else none)

abbrev pub Events : Type 0
Events = HandleTable HostEvent

-- A call that answers nothing.
abbrev pub change : (HostEvent → HostEvent) → Events → ℕ → Events
change f t event = if event == 0 then t else (with_host {0, 0} fresh (λ e. (f e, tt)) event t).0

pub os_init_event : Events → ℕ → ℤ → ℕ → Events
unfolding init
os_init_event t event value mode = change (λ e. init value mode) t event

pub os_signal_event : Events → ℕ → Events
os_signal_event t event = change signal t event

pub os_signal_event_all : Events → ℕ → Events
os_signal_event_all t event = change signal_all t event

pub os_reset_event : Events → ℕ → Events
os_reset_event t event = change reset t event

-- A null event does not wait.
pub os_wait_event : Events → ℕ → Events × Bool
os_wait_event t event = if event == 0 then (t, true) else with_host fresh wait event t

pub os_wait_event_with_timeout : Events → ℕ → ℕ → ℕ → Events × Option ℕ
os_wait_event_with_timeout t event due now =
    if event == 0 then (t, some 0) else with_host fresh (λ e. timed_wait e due now) event t
