-- ===== src/Host/Connection/Threads/Matching.antt =====
-- Which response a thread gets, where `shim_rpc` does not compare sequence numbers.
use eloquence.Base.{
  ℕ, ◌≡◌, refl, Bool, true, false, Bool-cases, inl, inr, ◌⊎◌, none, some, List, [], ◌∷◌, ◌++◌, ◌==◌,
  arith, add32, ==→eq, subst, sym, ◌∙◌,
}
use eloquence.Host.Connection.Threads.{
  Pc, outside, ready, locked, sent, got, failed, Shared, fresh, Move, enter, reconnect, acquire,
  send, send_fails, receive, receive_astray, receive_fails, clear, finish, System, update, Step,
  pick, bridge, init, Reach, start, later,
}

abbrev holds : Pc → Bool
holds locked = true
holds (sent _) = true
holds _ = false

-- No message is under way.
abbrev Quiet : Shared → Type 0
Quiet s = s.intact ≡ true → (s.requests ≡ []) × (s.responses ≡ [])

-- The request is the only message under way, or its response is.
abbrev Pending : ℕ → Shared → Type 0
Pending q s =
    s.intact ≡ true
    → ((s.requests ≡ q ∷ []) × (s.responses ≡ [])) ⊎ ((s.requests ≡ []) × (s.responses ≡ q ∷ []))

-- What a thread's place says of the shared state.
abbrev Own : Shared → Pc → Type 0
Own s locked = Quiet s
Own s (sent q) = Pending q s
Own s (got q r b) = b ≡ true → r ≡ q
Own s _ = Unit

record Inv (x : System) : Type 0 where
  owned : (i : ℕ) → holds (x.pc i) ≡ true → x.shared.owner ≡ some i
  own : (i : ℕ) → Own x.shared (x.pc i)
  free : x.shared.owner ≡ none → Quiet x.shared

-- A place without the lock says nothing of the messages.
Own-away : (s s' : Shared) (p : Pc) → holds p ≡ false → Own s p → Own s' p
Own-away s s' outside h k = tt
Own-away s s' ready h k = tt
Own-away s s' locked h k = cc
Own-away s s' (sent q) h k = cc
Own-away s s' (got q r b) h k = k
Own-away s s' failed h k = tt

-- `connected` says nothing of the messages.
Own-down : (s : Shared) (p : Pc) → Own s p → Own (record s { connected = false }) p
Own-down s outside k = tt
Own-down s ready k = tt
Own-down s locked k = k
Own-down s (sent q) k = k
Own-down s (got q r b) k = k
Own-down s failed k = tt

-- The bridge's step keeps what a thread knows of the messages.
Own-bridge :
    (s : Shared) (q : ℕ) (qs : List ℕ) (p : Pc)
    → s.requests ≡ q ∷ qs
    → Own s p
    → Own (record s { requests = qs; responses = s.responses ++ q ∷ [] }) p
Own-bridge s q qs outside e k = tt
Own-bridge s q qs ready e k = tt
Own-bridge s q qs locked e k = λ a. cc (e, (k a).0)
Own-bridge s q qs (sent n) e k = λ a. elim (k a) [
  | inl (one, none_) ↦
      let same : q ∷ qs ≡ n ∷ [] = sym e ∙ one in
      inr (ground (arith, same), rw none_ (ground (arith, same)))
  | inr (no_request, one) ↦ cc (e, no_request)
]
Own-bridge s q qs (got n r b) e k = k
Own-bridge s q qs failed e k = tt

module _ (x : System) (inv : Inv x) (i : ℕ) where
  -- Without an owner no thread has the lock.
  none-holds : (j : ℕ) → x.shared.owner ≡ none → holds (x.pc j) ≡ false
  none-holds j e = elim (Bool-cases (holds (x.pc j))) [ inl h ↦ cc (e, inv.owned j h) | inr h ↦ h ]

  -- While thread `i` has the lock, no other has it.
  other_holds : (j : ℕ) → holds (x.pc i) ≡ true → (i == j) ≡ false → holds (x.pc j) ≡ false
  other_holds j e ne = elim (Bool-cases (holds (x.pc j))) [
    | inl h ↦ ground (arith, inv.owned i e, inv.owned j h)
    | inr h ↦ h
  ]

  Own-at : (p : Pc) → x.pc i ≡ p → Own x.shared p
  Own-at p e = subst (Own x.shared) e (inv.own i)

  -- What is received is the response to the thread's own request, and the last message under way.
  received :
      (q r : ℕ) (rs : List ℕ)
      → x.pc i ≡ sent q
      → x.shared.intact ≡ true
      → x.shared.responses ≡ r ∷ rs
      → (r ≡ q) × (rs ≡ []) × (x.shared.requests ≡ [])
  received q r rs e ok front = elim (Own-at (sent q) e ok) [
    | inl (a, b) ↦ cc (b, front)
    | inr (a, b) ↦
        let same : r ∷ rs ≡ q ∷ [] = sym front ∙ b in
        (ground (arith, same), ground (arith, same), a)
  ]

  Move-Own : {p p' : Pc} {s : Shared} → Move i x.shared p s p' → x.pc i ≡ p → Own s p'
  Move-Own (enter up) e = tt
  Move-Own (reconnect free down) e = tt
  Move-Own (acquire free) e = inv.free free
  Move-Own send e = λ a.
      let (no_request, no_response) = Own-at locked e a in inl (rw no_request refl, no_response)
  Move-Own send_fails e = tt
  Move-Own (receive {q} {r} {rs} front) e = λ a. (received q r rs e a front).0
  Move-Own (receive_astray r qs rs broken) e = λ a. cc
  Move-Own receive_fails e = tt
  Move-Own clear e = tt
  Move-Own finish e = tt

  Move-free :
      {p p' : Pc} {s : Shared} → Move i x.shared p s p' → x.pc i ≡ p → s.owner ≡ none → Quiet s
  Move-free (enter up) e = inv.free
  Move-free (reconnect free down) e = λ n a. (refl, refl)
  Move-free (acquire free) e = cc
  Move-free send e = λ n. cc (inv.owned i (rw e refl), n)
  Move-free send_fails e = λ n a. cc
  Move-free (receive {q} {r} {rs} front) e = λ n a. let k = received q r rs e a front in (k.2, k.1)
  Move-free (receive_astray r qs rs broken) e = λ n a. cc (a, broken)
  Move-free receive_fails e = λ n a. cc
  Move-free clear e = inv.free
  Move-free finish e = inv.free

  Move-owned :
      {p p' : Pc} {s : Shared}
      → Move i x.shared p s p'
      → x.pc i ≡ p
      → holds p' ≡ true
      → s.owner ≡ some i
  Move-owned (enter up) e = cc
  Move-owned (reconnect free down) e = cc
  Move-owned (acquire free) e = λ h. refl
  Move-owned send e = λ h. inv.owned i (rw e refl)
  Move-owned send_fails e = cc
  Move-owned (receive front) e = cc
  Move-owned (receive_astray r qs rs broken) e = cc
  Move-owned receive_fails e = cc
  Move-owned clear e = cc
  Move-owned finish e = cc

  -- Any other thread: it keeps what it has, and it has the lock only where the mover leaves it alone.
  abbrev Kept : Shared → ℕ → Type 0
  Kept s j = Own s (x.pc j) × (holds (x.pc j) ≡ true → s.owner ≡ some j)

  away : (s : Shared) (j : ℕ) → holds (x.pc j) ≡ false → Kept s j
  away s j h = (Own-away x.shared s (x.pc j) h (inv.own j), cc)

  Move-others :
      {p p' : Pc} {s : Shared}
      → Move i x.shared p s p'
      → x.pc i ≡ p
      → (j : ℕ) → (i == j) ≡ false
      → Kept s j
  Move-others (enter up) e j ne = (inv.own j, inv.owned j)
  Move-others (reconnect free down) e j ne = away (fresh x.shared) j (none-holds j free)
  Move-others (acquire free) e j ne =
      away (record (x.shared) { owner = some i }) j (none-holds j free)
  Move-others send e j ne =
      away
        (record (x.shared) {
          requests = x.shared.requests ++ x.shared.next_seq ∷ [];
          next_seq = add32 x.shared.next_seq 1;
        })
        j (other_holds j (rw e refl) ne)
  Move-others send_fails e j ne =
      away
        (record (x.shared) { owner = none; intact = false; next_seq = add32 x.shared.next_seq 1 }) j
        (other_holds j (rw e refl) ne)
  Move-others (receive {rs = rs} front) e j ne =
      away (record (x.shared) { owner = none; responses = rs }) j (other_holds j (rw e refl) ne)
  Move-others (receive_astray r qs rs broken) e j ne =
      away (record (x.shared) { owner = none; requests = qs; responses = rs }) j
        (other_holds j (rw e refl) ne)
  Move-others receive_fails e j ne =
      away (record (x.shared) { owner = none; intact = false }) j (other_holds j (rw e refl) ne)
  Move-others clear e j ne = (Own-down x.shared (x.pc j) (inv.own j), inv.owned j)
  Move-others finish e j ne = (inv.own j, inv.owned j)

  Move-Inv :
      {p' : Pc} {s : Shared}
      → Move i x.shared (x.pc i) s p'
      → Inv (record { shared = s; pc = update x.pc i p' })
  Move-Inv {p'} {s} mv = record {
    owned = λ j. elim (Bool-cases (i == j)) [
      | inl same ↦ rw same (rw (← ==→eq i j same) (Move-owned mv refl))
      | inr other ↦ rw other ((Move-others mv refl j other).1)
    ];
    own = λ j. elim (Bool-cases (i == j)) [
      | inl same ↦ rw same (Move-Own mv refl)
      | inr other ↦ rw other ((Move-others mv refl j other).0)
    ];
    free = Move-free mv refl;
  }

init-Inv : Inv init
init-Inv = record { owned = λ i. cc; own = λ i. tt; free = λ n a. cc }

Step-Inv : {x y : System} → Step x y → Inv x → Inv y
Step-Inv {x} (pick i mv) inv = Move-Inv x inv i mv
Step-Inv {x} (bridge {q} {qs} e) inv = record {
  owned = inv.owned;
  own = λ i. Own-bridge x.shared q qs (x.pc i) e (inv.own i);
  free = λ n a. cc (e, (inv.free n a).0);
}

Reach-Inv : {x : System} → Reach x → Inv x
Reach-Inv start = init-Inv
Reach-Inv (later r st) = Step-Inv st (Reach-Inv r)

-- In every state that the threads and the bridge can reach, in any interleaving, with failures and new
-- connections at any point: a thread that has received a response over a connection on which no call had failed
-- until then has the one to its own request. For a response over a connection on which a call has failed nothing
-- is said.
pub Reach-matches : (x : System) (i q r : ℕ) → Reach x → x.pc i ≡ got q r true → r ≡ q
Reach-matches x i q r h e = subst (Own x.shared) e ((Reach-Inv h).own i) refl

-- Two threads are never between their sending and their receiving at once, and what is under way there is
-- one message at most.
pub Reach-excludes :
    (x : System) (i j q p : ℕ) → Reach x → x.pc i ≡ sent q → x.pc j ≡ sent p → i ≡ j
Reach-excludes x i j q p h e d =
    let inv = Reach-Inv h in ground (arith, inv.owned i (rw e refl), inv.owned j (rw d refl))
