-- ===== src/Debug.antt =====
-- source/debug.cpp: where text goes. A sink or a handler that the port installs is a number, none is the
-- default one. What `vsnprintf` makes of a format, its answer and the text, is an argument.
pub mod Panic
mod Tests
use coreinit_nx.Base.{
  ℕ, ◌+◌, ◌≤◌, ◌<◌, ◌≡◌, refl, sym, subst, Bool, true, false, not, ◌||◌, List, Option, none, some,
  ltb, ◌-◌, ◌==◌, if◌then◌else◌, take, arith,
}
use coreinit_nx.Base.Int.{ℤ, pos, negsuc}

pub record Debug : Type 0 where
  pub sink : Option ℕ
  pub fatal : Option ℕ

-- A call of the sink or of the handler in place: the text and its size.
pub data Output : Type 0 where
  to_sink : Option ℕ → List ℕ → ℕ → Output
  to_fatal : Option ℕ → List ℕ → Output

-- `emit`: the size of the buffer, and what of the text goes to the sink.
abbrev pub buffer_size : ℕ
buffer_size = 1024

abbrev pub emitted_size : ℕ → ℕ
emitted_size n = if ltb n buffer_size then n else buffer_size - 1

pub emit : Debug → ℤ → List ℕ → Option Output
emit d (pos n) text =
    if n == 0 then none else some (to_sink d.sink (take (emitted_size n) text) (emitted_size n))
emit d (negsuc n) text = none

pub set_log_sink : Option ℕ → Debug → Debug
set_log_sink sink d = record d { sink = sink }

pub set_fatal_handler : Option ℕ → Debug → Debug
set_fatal_handler handler d = record d { fatal = handler }

-- `OSConsoleWrite`, with the text that the pointer leads to.
pub os_console_write : Debug → Option (List ℕ) → ℕ → Option Output
os_console_write d none size = none
os_console_write d (some text) size =
    if size == 0 then none else some (to_sink d.sink (take size text) size)

-- `OSVReport`, `OSReport` and the three by level, which differ in nothing else.
pub os_report : Debug → Bool → ℤ → List ℕ → Option Output
os_report d format n text = if format then emit d n text else none

pub os_fatal : Debug → List ℕ → Output
os_fatal d message = to_fatal d.fatal message
