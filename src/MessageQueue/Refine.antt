-- ===== src/MessageQueue/Refine.antt =====
-- The ring holds a bounded sequence of messages: a send puts one at an end, a receive takes the
-- first.
use native.Mathlib.Nat.{mod-lt, mod-eq_of_lt, add-mod_right}
use mathlib.Core.List.{head?}
use coreinit_nx.Base.{
  ℕ, suc, zero, ◌+◌, ◌-◌, ◌%◌, ◌^◌, ◌≤◌, ◌<◌, ◌≡◌, ◌≢◌, refl, sym, ap, ap₂, ◌∙◌, inl, inr, false,
  List, [], ◌∷◌, ◌++◌, Option, none, some, length, length-set, length-replicate, get_or,
  get_or-set_self, set, leb, ◌==◌, if◌then◌else◌, Bool-cases, arith,
}
use coreinit_nx.MessageQueue.{
  Message, no_message, HostQueue, Section, done, waits, u32, is_blocking, is_high_priority, init,
  push_front, push_back, send, pop, receive, peek,
}
use coreinit_nx.MessageQueue.Ring.{window, window_mod, window-set_before, window-set_behind}

-- A queue that was initialised: the ring has its capacity, and the counters are within it.
pub record IsQueue (q : HostQueue) : Type 0 where
  pub has_room : 0 < q.capacity
  pub small : q.capacity < 2 ^ 31
  pub size : length q.ring ≡ q.capacity
  pub head_in : q.head < q.capacity
  pub count_in : q.count ≤ q.capacity

-- The messages that wait in the queue, the next to be received first.
abbrev pub contents : HostQueue → List Message
contents q = window q.ring q.capacity q.head q.count

length-window : (ring : List Message) (cap h n : ℕ) → length (window ring cap h n) ≡ n
length-window ring cap h zero = refl
length-window ring cap h (suc n) = ap suc (length-window ring cap (h + 1) n)

pub length-contents : (q : HostQueue) → length (contents q) ≡ q.count
length-contents q = length-window q.ring q.capacity q.head q.count

-- `OSInitMessageQueue` gives an empty queue of the capacity asked for, whatever the queue was.
pub init_lem :
    (size : ℕ) (q : HostQueue)
    → 0 < size
    → size < 2 ^ 31
    → IsQueue (init size q) × (contents (init size q) ≡ []) × ((init size q).capacity ≡ size)
unfolding init
init_lem size q pos small = (
  record {
    has_room = pos;
    small = small;
    size = length-replicate size no_message;
    head_in = pos;
    count_in = omega arith;
  },
  refl,
  refl,
)

contents-push_back :
    (q : HostQueue) (m : Message)
    → IsQueue q
    → q.count < q.capacity
    → contents (push_back q m) ≡ contents q ++ (m ∷ [])
unfolding push_back
contents-push_back q m v lt =
    let at : u32 (q.head + q.count) ≡ q.head + q.count = omega arith in
    let more : u32 (q.count + 1) ≡ suc q.count = omega arith in
    rw (at, more)
      (window-set_behind q.ring q.capacity (q.head + q.count) q.head q.count m refl lt v.size)

-- A write just before a window, whose start it becomes.
put_before :
    (ring : List Message) (cap h n : ℕ) (m : Message)
    → n < cap
    → length ring ≡ cap
    → window (set ring ((h + cap - 1) % cap) m) cap ((h + cap - 1) % cap) (suc n)
      ≡ m ∷ window ring cap h n
put_before ring cap h n m lt size =
    let i : ℕ = h + cap - 1 in
    let below : i % cap < cap = mod-lt i {m = cap} (omega arith) in
    let next : (i + 1) % cap ≡ h % cap = ap (λ t. t % cap) (omega arith) ∙ add-mod_right h cap in
    window_mod (set ring (i % cap) m) cap (i % cap) i (suc n) (mod-eq_of_lt below)
    ∙ ap₂ ◌∷◌ (get_or-set_self ring (i % cap) m no_message (omega arith)) (
        window-set_before ring cap i (i + 1) 1 n m refl (omega arith) (omega arith)
        ∙ window_mod ring cap (i + 1) h n next)

contents-push_front :
    (q : HostQueue) (m : Message)
    → IsQueue q
    → q.count < q.capacity
    → contents (push_front q m) ≡ m ∷ contents q
unfolding push_front
contents-push_front q m v lt =
    let start : u32 (q.head + q.capacity + 2 ^ 32 - 1) ≡ q.head + q.capacity - 1 = omega arith in
    let more : u32 (q.count + 1) ≡ suc q.count = omega arith in
    rw (start, more) (put_before q.ring q.capacity q.head q.count m lt v.size)

-- What the messages in the queue are after a section that ended, and its answer.
abbrev pub view {ℓ} : {A : Type ℓ} → Section A → Option (List Message × A)
view (done q a) = some (contents q, a)
view waits = none

-- The sequence that a queue stands for, at most `cap` long. A section ends, or waits.
module _ (cap : ℕ) where
  unfoldable pub spec_send : List Message → Message → ℕ → Option (List Message × ℕ)
  spec_send xs m flags =
      if leb cap (length xs)
      then if is_blocking flags then none else some (xs, 0)
      else some (if is_high_priority flags then m ∷ xs else xs ++ (m ∷ []), 1)

unfoldable pub spec_receive : List Message → ℕ → Option (List Message × Option Message)
spec_receive [] flags = if is_blocking flags then none else some ([], none)
spec_receive (m ∷ xs) flags = some (xs, some m)

-- On an initialised queue `OSSendMessage` on the ring does what it does on the sequence: full, it
-- waits if it may block and is refused if not, and otherwise the message goes in front if its
-- priority is high and to the end if not.
pub send_refines :
    (q : HostQueue) (m : Message) (flags : ℕ)
    → IsQueue q
    → view (send q m flags) ≡ spec_send q.capacity (contents q) m flags
unfolding send spec_send
send_refines q m flags v = elim (Bool-cases (leb q.capacity q.count)) [
  | inl full ↦
      rw (length-contents q, full)
        (elim (Bool-cases (is_blocking flags)) [ inl b ↦ rw b | inr b ↦ rw b ])
  | inr room ↦
      let lt : q.count < q.capacity = ground arith in
      rw (length-contents q, room)
        (elim (Bool-cases (is_high_priority flags)) [
          | inl hi ↦ rw hi (ap (λ xs. some (xs, 1)) (contents-push_front q m v lt))
          | inr lo ↦ rw lo (ap (λ xs. some (xs, 1)) (contents-push_back q m v lt))
        ])
]

contents-pop :
    (q : HostQueue) (n : ℕ)
    → IsQueue q
    → q.count ≡ suc n
    → contents q ≡ get_or q.ring q.head no_message ∷ contents (pop q)
unfolding pop
contents-pop q n v e =
    let here : q.head % q.capacity ≡ q.head = mod-eq_of_lt v.head_in in
    let at : u32 (q.head + 1) ≡ q.head + 1 = omega arith in
    let less : u32 (q.count + 2 ^ 32 - 1) ≡ n = omega arith in
    let next : (q.head + 1) % q.capacity ≡ (q.head + 1) % q.capacity % q.capacity =
      sym (mod-eq_of_lt (mod-lt (q.head + 1) {m = q.capacity} v.has_room)) in
    rw (less, at, e)
      (ap₂ ◌∷◌ (ap (λ i. get_or q.ring i no_message) here)
        (window_mod q.ring q.capacity (q.head + 1) ((q.head + 1) % q.capacity) n next))

receive_at :
    (q : HostQueue) (flags n : ℕ)
    → IsQueue q
    → q.count ≡ n
    → view (receive q flags) ≡ spec_receive (contents q) flags
unfolding receive spec_receive
receive_at q flags zero v e =
    rw e (elim (Bool-cases (is_blocking flags)) [ inl b ↦ rw b | inr b ↦ rw b ])
receive_at q flags (suc n) v e =
    let some_left : (q.count == 0) ≡ false = ground arith in rw (contents-pop q n v e, some_left)

peek_at : (q : HostQueue) (n : ℕ) → IsQueue q → q.count ≡ n → peek q ≡ head? (contents q)
unfolding peek
peek_at q zero v e = rw e refl
peek_at q (suc n) v e = rw (contents-pop q n v e) (ground (arith, e))

-- On an initialised queue `OSReceiveMessage` on the ring does what it does on the sequence: empty,
-- it waits if it may block and answers 0 if not, and otherwise it takes the first message.
pub receive_refines :
    (q : HostQueue) (flags : ℕ)
    → IsQueue q
    → view (receive q flags) ≡ spec_receive (contents q) flags
receive_refines q flags v = receive_at q flags q.count v refl

-- `OSPeekMessage` answers with the message that the next receive will take, and takes none.
pub peek_refines : (q : HostQueue) → IsQueue q → peek q ≡ head? (contents q)
peek_refines q v = peek_at q q.count v refl

push_front-IsQueue :
    (q : HostQueue) (m : Message) → IsQueue q → q.count < q.capacity → IsQueue (push_front q m)
unfolding push_front
push_front-IsQueue q m v lt = record {
  has_room = v.has_room;
  small = v.small;
  size = length-set q.ring _ m ∙ v.size;
  head_in = mod-lt _ {m = q.capacity} v.has_room;
  count_in = omega arith;
}

push_back-IsQueue :
    (q : HostQueue) (m : Message) → IsQueue q → q.count < q.capacity → IsQueue (push_back q m)
unfolding push_back
push_back-IsQueue q m v lt = record {
  has_room = v.has_room;
  small = v.small;
  size = length-set q.ring _ m ∙ v.size;
  head_in = v.head_in;
  count_in = omega arith;
}

-- The queue that a section leaves: the same if it waits.
abbrev pub after {ℓ} : {A : Type ℓ} → HostQueue → Section A → HostQueue
after q (done q' a) = q'
after q waits = q

-- A send keeps the queue in order, whether it goes through, is refused or waits.
pub send-IsQueue :
    (q : HostQueue) (m : Message) (flags : ℕ) → IsQueue q → IsQueue (after q (send q m flags))
unfolding send
send-IsQueue q m flags v = elim (Bool-cases (leb q.capacity q.count)) [
  | inl full ↦ rw full (elim (Bool-cases (is_blocking flags)) [ inl b ↦ rw b v | inr b ↦ rw b v ])
  | inr room ↦
      let lt : q.count < q.capacity = ground arith in
      rw room (elim (Bool-cases (is_high_priority flags)) [
        | inl hi ↦ rw hi (push_front-IsQueue q m v lt)
        | inr lo ↦ rw lo (push_back-IsQueue q m v lt)
      ])
]

pop-IsQueue : (q : HostQueue) → IsQueue q → q.count ≢ 0 → IsQueue (pop q)
unfolding pop
pop-IsQueue q v ne = record {
  has_room = v.has_room;
  small = v.small;
  size = v.size;
  head_in = mod-lt _ {m = q.capacity} v.has_room;
  count_in = omega arith;
}

-- So does a receive.
pub receive-IsQueue : (q : HostQueue) (flags : ℕ) → IsQueue q → IsQueue (after q (receive q flags))
unfolding receive
receive-IsQueue q flags v = elim (Bool-cases (q.count == 0)) [
  | inl e ↦ simp e (elim (Bool-cases (is_blocking flags)) [ inl b ↦ rw b v | inr b ↦ rw b v ])
  | inr e ↦ simp e (pop-IsQueue q v (ground arith))
]
