-- ===== src/Spinlock/Timed.antt =====
-- The wait with a deadline ends.
use native.Mathlib.Decide.{ℕ_discrete}
use coreinit_nx.Base.{
  ℕ, zero, suc, ◌+◌, ◌≤◌, ◌<◌, ◌≡◌, ◌≢◌, ◌⊎◌, refl, sym, ap, ◌∙◌, inl, inr, Bool, true, false,
  Option, none, some, leb, ◌==◌, if◌then◌else◌, Bool-cases, Option-cases, leb→le, subst, arith,
}
use coreinit_nx.Base.Int.{ℤ}
use coreinit_nx.Mutex.{KernelMutex}
use coreinit_nx.Spinlock.{TimedTurn, wait_until, last_turn, timed_turns, try_acquire_timeout}

module _ (K : KernelMutex) (t until : ℕ) (locks : ℕ → K.State) (clock : ℕ → ℕ) where
  -- How a wait ends at a turn: with the lock, taken at that turn, or past the deadline without it; and
  -- no turn before it could take the lock or was past the deadline.
  abbrev pub IsTaken : ℕ → TimedTurn K.State → Type 0
  IsTaken k r = (r.answer ≡ 1) × (K.acquire t (locks k) ≡ some r.lock)

  abbrev pub IsLate : ℕ → TimedTurn K.State → Type 0
  IsLate k r =
      (r.answer ≡ 0) × (r.lock ≡ locks k) × (K.acquire t (locks k) ≡ none) × (until ≤ clock k)

  pub record IsEnd (first last : ℕ) (r : TimedTurn K.State) : Type 0 where
    pub turn : ℕ
    pub in_range : (first ≤ turn) × (turn ≤ last)
    pub ends : IsTaken turn r ⊎ IsLate turn r
    pub before : (j : ℕ) → first ≤ j → j < turn → (K.acquire t (locks j) ≡ none) × (clock j < until)

  turns_at :
      (fuel k : ℕ) (o : Option K.State) (b : Bool)
      → K.acquire t (locks k) ≡ o
      → leb until (clock k) ≡ b
      → timed_turns K t until locks clock (suc fuel) k ≡ elim o [
        | some s ↦ some (record { answer = 1; lock = s })
        | none ↦
            last_turn K b
              (record { answer = 0; lock = locks k })
              (timed_turns K t until locks clock fuel (k + 1))
      ]
  unfolding timed_turns
  turns_at fuel k o b e f =
      ap
        (λ x. elim x [
          | some s ↦ some (record { answer = 1; lock = s })
          | none ↦
              last_turn K (leb until (clock k)) (record { answer = 0; lock = locks k })
                (timed_turns K t until locks clock fuel (k + 1))
        ])
        e
      ∙ ap
          (λ x. elim o [
            | some s ↦ some (record { answer = 1; lock = s })
            | none ↦
                last_turn K x (record { answer = 0; lock = locks k })
                  (timed_turns K t until locks clock fuel (k + 1))
          ])
          f

  later : (k last : ℕ) → k ≤ last → clock k < until → until ≤ clock last → k + 1 ≤ last
  later k last m early h = elim (ℕ_discrete k last) [
    | yes e ↦ let f = ap clock e in absurd (omega arith)
    | no e ↦ omega arith
  ]

  earlier :
      (k last : ℕ) (r : TimedTurn K.State)
      → K.acquire t (locks k) ≡ none
      → clock k < until
      → IsEnd (k + 1) last r
      → IsEnd k last r
  earlier k last r e early i =
      let (lo, hi) = i.in_range in
      record {
        turn = i.turn;
        in_range = (omega arith, hi);
        ends = i.ends;
        before = λ j a b. elim (ℕ_discrete j k) [
          | yes f ↦
              subst (λ x. (K.acquire t (locks x) ≡ none) × (clock x < until)) (sym f) (e, early)
          | no f ↦ i.before j (omega arith) b
        ];
      }

  turns-IsEnd :
      (fuel k last : ℕ)
      → last < k + fuel
      → k ≤ last
      → until ≤ clock last
      → (r : TimedTurn K.State) × (timed_turns K t until locks clock fuel k ≡ some r)
        × IsEnd k last r
  turns-IsEnd zero k last l m h = absurd (omega arith)
  turns-IsEnd (suc fuel) k last l m h = elim (Option-cases (K.acquire t (locks k))) [
    | inr (s, e) ↦ (
      record { answer = 1; lock = s },
      turns_at fuel k (some s) (leb until (clock k)) e refl,
      record {
        turn = k;
        in_range = (omega arith, m);
        ends = inl (refl, e);
        before = λ j a b. absurd (omega arith);
      },
    )
    | inl e ↦ elim (Bool-cases (leb until (clock k))) [
      | inl b ↦ (
        record { answer = 0; lock = locks k },
        turns_at fuel k none true e b,
        record {
          turn = k;
          in_range = (omega arith, m);
          ends = inr (refl, refl, e, leb→le until (clock k) b);
          before = λ j c d. absurd (omega arith);
        },
      )
      | inr b ↦
          let early : clock k < until = ground (arith, b) in
          let next = turns-IsEnd fuel (k + 1) last (omega arith) (later k last m early h) h in
          (next.0, turns_at fuel k none false e b ∙ next.1, earlier k last next.0 e early next.2)
    ]
  ]

-- A timed wait for a lock that is not null ends once the counter has reached the deadline at
-- some turn, whatever other threads do with the lock meanwhile, with one turn of fuel more
-- than that. It takes the lock at the first turn that finds it free, and answers 1; it answers
-- 0 and leaves the lock at the first turn that is past the deadline, if no turn up to that one
-- could take it.
pub try_acquire_timeout_lem :
    (K : KernelMutex) (t tick : ℕ) (timeout : ℤ) (locks : ℕ → K.State) (clock : ℕ → ℕ) (last l : ℕ)
    → l ≢ 0
    → wait_until K tick timeout ≤ clock last
    → (r : TimedTurn K.State) × (try_acquire_timeout K t tick timeout locks clock (last + 1) l
        ≡ some r)
      × IsEnd K t (wait_until K tick timeout) locks clock 0 last r
unfolding try_acquire_timeout
try_acquire_timeout_lem K t tick timeout locks clock last l n h =
    let until = wait_until K tick timeout in
    let z : (l == 0) ≡ false = ground (arith, n) in
    let (r, e, i) =
      turns-IsEnd K t until locks clock (last + 1) 0 last (omega arith) (omega arith) h in
    (
      r,
      ap
            (λ b.
              if b
              then some (record { answer = 0; lock = locks 0 })
              else timed_turns K t until locks clock (last + 1) 0)
            z
          ∙ e,
      i,
    )
