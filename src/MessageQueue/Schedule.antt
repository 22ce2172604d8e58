-- ===== src/MessageQueue/Schedule.antt =====
-- Any interleaving of sends and receives by any threads: each attempt is one section of the queue's
-- lock, and a thread that waits attempts anew when it is woken. No message is lost, made up,
-- doubled or, without high priority, reordered.
use coreinit_nx.Base.{
  ℕ, ◌≡◌, refl, sym, ap, ◌∙◌, inl, inr, false, List, [], ◌∷◌, ◌++◌, Option, none, some, All, length,
  leb, ◌==◌, if◌then◌else◌, Bool-cases, arith,
}
use mathlib.Core.List.{append_assoc, append-nil}
use coreinit_nx.MessageQueue.{
  Message, HostQueue, Section, done, waits, is_high_priority, is_blocking, send, receive,
}
use coreinit_nx.MessageQueue.Refine.{
  IsQueue, contents, view, after, send_refines, receive_refines, spec_send, spec_receive,
  send-IsQueue, receive-IsQueue,
}

pub data Attempt : Type 0 where
  sends : (m : Message) (flags : ℕ) → Attempt
  receives : (flags : ℕ) → Attempt

-- The queue after some attempts, with the messages accepted and those received, oldest first.
pub record Trace : Type 0 where
  pub queue : HostQueue
  pub accepted : List Message
  pub received : List Message

-- The message that a send got into the queue, if it did.
abbrev pub accepts : Message → Section ℕ → List Message
accepts m (done q r) = if r == 1 then m ∷ [] else []
accepts m waits = []

abbrev pub receipts : Section (Option Message) → List Message
receipts (done q (some m)) = m ∷ []
receipts (done q none) = []
receipts waits = []

pub step : HostQueue → Attempt → Trace
step q (sends m flags) = record {
  queue = after q (send q m flags);
  accepted = accepts m (send q m flags);
  received = [];
}
step q (receives flags) = record {
  queue = after q (receive q flags);
  accepted = [];
  received = receipts (receive q flags);
}

pub run : HostQueue → List Attempt → Trace
run q [] = record { queue = q; accepted = []; received = [] }
run q (a ∷ as') =
    let t = step q a in
    let u = run t.queue as' in
    record {
      queue = u.queue;
      accepted = t.accepted ++ u.accepted;
      received = t.received ++ u.received;
    }

abbrev pub IsNormal : Attempt → Type 0
IsNormal (sends m flags) = is_high_priority flags ≡ false
IsNormal (receives flags) = Unit

step-IsQueue : (q : HostQueue) (a : Attempt) → IsQueue q → IsQueue (step q a).queue
unfolding step
step-IsQueue q (sends m flags) v = send-IsQueue q m flags v
step-IsQueue q (receives flags) v = receive-IsQueue q flags v

sent_fifo :
    (q : HostQueue) (m : Message) (flags : ℕ) (s : Section ℕ)
    → is_high_priority flags ≡ false
    → view s ≡ spec_send q.capacity (contents q) m flags
    → contents q ++ accepts m s ≡ contents (after q s)
unfolding spec_send
sent_fifo q m flags waits n e = append-nil (contents q)
sent_fifo q m flags (done q' r) n e = elim (Bool-cases (leb q.capacity (length (contents q)))) [
  | inl full ↦ elim (Bool-cases (is_blocking flags)) [
    | inl b ↦ absurd (ground (arith, full, b))
    | inr b ↦
        let same : some (contents q', r) ≡ some (contents q, 0) = simp (full, b) at e in
        ground (arith, same, append-nil (contents q))
  ]
  | inr room ↦
      let same : some (contents q', r) ≡ some (contents q ++ (m ∷ []), 1) = simp (room, n) at e in
      ground (arith, same)
]

received_fifo :
    (q : HostQueue) (flags : ℕ) (xs : List Message) (s : Section (Option Message))
    → contents q ≡ xs
    → view s ≡ spec_receive xs flags
    → contents q ≡ receipts s ++ contents (after q s)
unfolding spec_receive
received_fifo q flags xs waits c e = refl
received_fifo q flags [] (done q' none) c e = ground (arith, e)
received_fifo q flags [] (done q' (some m)) c e = absurd (ground (arith, e))
received_fifo q flags (x ∷ xs) (done q' none) c e = absurd (ground (arith, e))
received_fifo q flags (x ∷ xs) (done q' (some m)) c e = ground (arith, e)

-- In one step the messages in the queue and those accepted are those received and those left.
step_fifo :
    (q : HostQueue) (a : Attempt)
    → IsQueue q
    → IsNormal a
    → contents q ++ (step q a).accepted ≡ (step q a).received ++ contents (step q a).queue
unfolding step
step_fifo q (sends m flags) v n = sent_fifo q m flags _ n (send_refines q m flags v)
step_fifo q (receives flags) v n =
    append-nil (contents q) ∙ received_fifo q flags _ _ refl (receive_refines q flags v)

-- First in, first out, on an initialised queue, in any interleaving of sends of normal priority
-- and receives: the messages in the queue followed by those accepted are those received followed
-- by those left in the queue.
pub run_fifo :
    (q : HostQueue) (as' : List Attempt)
    → IsQueue q
    → All IsNormal as'
    → contents q ++ (run q as').accepted ≡ (run q as').received ++ contents (run q as').queue
unfolding run
run_fifo q [] v n = append-nil (contents q)
run_fifo q (a ∷ as') v n =
    let t = step q a in
    let u = run t.queue as' in
    sym (append_assoc (contents q) t.accepted u.accepted)
    ∙ ap (λ xs. xs ++ u.accepted) (step_fifo q a v n.0)
    ∙ append_assoc t.received (contents t.queue) u.accepted
    ∙ ap (λ xs. t.received ++ xs) (run_fifo t.queue as' (step-IsQueue q a v) n.1)
    ∙ sym (append_assoc t.received u.received (contents u.queue))
