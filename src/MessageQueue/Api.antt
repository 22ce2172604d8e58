-- ===== src/MessageQueue/Api.antt =====
-- The exported calls of source/messagequeue.cpp: each finds its queue by address, 0 for null. A
-- reply of `none` is a thread that waits.
use coreinit_nx.Base.{ℕ, Bool, true, ◌||◌, Option, none, some, ◌==◌, if◌then◌else◌}
use coreinit_nx.Base.Int.{ℤ, pos, leb_ℤ, nat_abs}
use coreinit_nx.Handles.{HandleTable, with_host}
use coreinit_nx.MessageQueue.{
  Message, HostQueue, Section, done, waits, fresh, init, send, receive, peek,
}

abbrev pub Queues : Type 0
Queues = HandleTable HostQueue

-- A section on a queue: the queue it leaves, and its reply.
abbrev pub reply {ℓ} : {A : Type ℓ} → HostQueue → Section A → HostQueue × Option A
reply q (done q' a) = (q', some a)
reply q waits = (q, none)

pub os_init_message_queue : Queues → ℕ → ℤ → Queues
os_init_message_queue t queue size =
    if queue == 0 || leb_ℤ size (pos 0)
    then t
    else (with_host {0, 0} fresh (λ q. (init (nat_abs size) q, tt)) queue t).0

pub os_init_message_queue_ex : Queues → ℕ → ℤ → Queues
os_init_message_queue_ex t queue size = os_init_message_queue t queue size

pub os_send_message : Queues → ℕ → Option Message → ℕ → Queues × Option ℕ
os_send_message t queue none flags = (t, some 0)
os_send_message t queue (some m) flags =
    if queue == 0 then (t, some 0) else with_host fresh (λ q. reply q (send q m flags)) queue t

-- The message goes to the buffer whose address is given; a null buffer answers 0.
pub os_receive_message : Queues → ℕ → ℕ → ℕ → Queues × Option (Option Message)
os_receive_message t queue message flags =
    if queue == 0 || message == 0
    then (t, some none)
    else with_host fresh (λ q. reply q (receive q flags)) queue t

pub os_peek_message : Queues → ℕ → ℕ → Queues × Option Message
os_peek_message t queue message =
    if queue == 0 || message == 0 then (t, none) else with_host fresh (λ q. (q, peek q)) queue t

-- `g_systemQueue` and `g_systemQueueReady`: the queue of the system is set up for 16 messages the
-- first time that it is asked for.
pub os_get_system_message_queue : ℕ → Queues × Bool → Queues × Bool
os_get_system_message_queue system (t, ready) =
    if ready then (t, true) else (os_init_message_queue t system (pos 16), true)
