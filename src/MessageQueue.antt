-- ===== src/MessageQueue.antt =====
-- source/messagequeue.cpp: bounded message queues over a ring that the host keeps. The queue's lock
-- makes each call one step up to where it waits: a call ends, or it waits on a condition variable,
-- which gives up the lock, and starts its test anew when it is woken. Counts are 32-bit.
pub mod Ring
pub mod Refine
pub mod Schedule
pub mod Api
mod Tests
use coreinit_nx.Base.{
  ℕ, ◌+◌, ◌-◌, ◌%◌, ◌^◌, Bool, true, false, not, List, [], Option, none, some, ltb, leb, ◌==◌,
  if◌then◌else◌, bit_and, get_or, set, replicate,
}

-- `OSMessage`: a pointer and three words, which are moved and never read.
pub record Message : Type 0 where
  pub message : ℕ
  pub arg0 : ℕ
  pub arg1 : ℕ
  pub arg2 : ℕ

abbrev pub no_message : Message
no_message = record { message = 0; arg0 = 0; arg1 = 0; arg2 = 0 }

pub record HostQueue : Type 0 where
  pub ring : List Message
  pub head : ℕ
  pub count : ℕ
  pub capacity : ℕ

-- `HostQueue::init`.
abbrev pub fresh : HostQueue
fresh = record { ring = []; head = 0; count = 0; capacity = 0 }

abbrev pub u32 : ℕ → ℕ
u32 x = x % 2 ^ 32

-- How a locked section ends: with an answer, or in a wait. A section that changes the queue wakes
-- one thread that waits for that: `notEmpty` after a send, `notFull` after a receive.
pub data Section {ℓ} (A : Type ℓ) : Type ℓ where
  done : HostQueue → A → Section A
  waits : Section A

-- OS_MESSAGE_FLAGS_BLOCKING and OS_MESSAGE_FLAGS_HIGH_PRIORITY.
abbrev pub is_blocking : ℕ → Bool
is_blocking flags = not (bit_and flags 1 == 0)

abbrev pub is_high_priority : ℕ → Bool
is_high_priority flags = not (bit_and flags 2 == 0)

-- `OSInitMessageQueue` with a positive size.
pub init : ℕ → HostQueue → HostQueue
init size q = record { ring = replicate size no_message; head = 0; count = 0; capacity = size }

pub push_front : HostQueue → Message → HostQueue
push_front q m =
    let head = u32 (q.head + q.capacity + 2 ^ 32 - 1) % q.capacity in
    record q { head = head; ring = set q.ring head m; count = u32 (q.count + 1) }

pub push_back : HostQueue → Message → HostQueue
push_back q m = record q {
  ring = set q.ring (u32 (q.head + q.count) % q.capacity) m;
  count = u32 (q.count + 1);
}

-- `OSSendMessage`: 1 for a message sent.
pub send : HostQueue → Message → ℕ → Section ℕ
send q m flags =
    if leb q.capacity q.count
    then if is_blocking flags then waits else done q 0
    else done (if is_high_priority flags then push_front q m else push_back q m) 1

pub pop : HostQueue → HostQueue
pop q = record q { head = u32 (q.head + 1) % q.capacity; count = u32 (q.count + 2 ^ 32 - 1) }

-- `OSReceiveMessage`: the message, or none for the answer 0.
pub receive : HostQueue → ℕ → Section (Option Message)
receive q flags =
    if q.count == 0
    then if is_blocking flags then waits else done q none
    else done (pop q) (some (get_or q.ring q.head no_message))

-- `OSPeekMessage`.
pub peek : HostQueue → Option Message
peek q = if ltb 0 q.count then some (get_or q.ring q.head no_message) else none
