-- ===== src/MessageQueue/Tests.antt =====
-- A queue of three messages: runs of the code, and its theorems at them.
use coreinit_nx.Base.{◌≡◌, refl, List, [], ◌∷◌, ◌++◌, arith}
use coreinit_nx.MessageQueue.{Message, HostQueue, fresh, init, send, receive}
use coreinit_nx.MessageQueue.Refine.{
  IsQueue, contents, view, after, init_lem, spec_send, spec_receive, send_refines, receive_refines,
  send-IsQueue,
}
use coreinit_nx.MessageQueue.Schedule.{Attempt, sends, receives, run, run_fifo}

abbrev hello : Message
hello = record { message = 1; arg0 = 2; arg1 = 3; arg2 = 4 }

abbrev world : Message
world = record { message = 5; arg0 = 6; arg1 = 7; arg2 = 8 }

abbrev empty : HostQueue
empty = init 3 fresh

-- One message, sent with high priority from an empty ring, and so behind the end of the ring.
abbrev one : HostQueue
one = after empty (send empty hello 2)

empty-IsQueue : IsQueue empty
empty-IsQueue = (init_lem 3 fresh (omega arith) (omega arith)).0

one-IsQueue : IsQueue one
one-IsQueue = send-IsQueue empty hello 2 empty-IsQueue

send_refines_example : view (send one world 0) ≡ spec_send one.capacity (contents one) world 0
send_refines_example = send_refines one world 0 one-IsQueue

receive_refines_example : view (receive one 0) ≡ spec_receive (contents one) 0
receive_refines_example = receive_refines one 0 one-IsQueue

abbrev attempts : List Attempt
attempts = sends world 1 ∷ receives 0 ∷ sends hello 0 ∷ sends world 0 ∷ receives 1 ∷ receives 1 ∷ []

run_fifo_example :
    contents one ++ (run one attempts).accepted
    ≡ (run one attempts).received ++ contents (run one attempts).queue
run_fifo_example = run_fifo one attempts one-IsQueue (refl, (tt, (refl, (refl, (tt, (tt, tt))))))
