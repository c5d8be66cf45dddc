-- ===== src/Bridge/Server/Clients.antt =====
-- The invariant of the server's clients, and what the operations on their list keep.
use eloquence.Base.{
  ℕ, ◌+◌, ◌≤◌, ◌<◌, ◌≡◌, some, List, [], ◌∷◌, arith, ◌==◌, Bool-cases, inl, inr, map,
}
use eloquence.Handle.{HandleEntry}
use eloquence.Handle.Scan.{RowOk}
use eloquence.Handle.Ids.{AtMost, AtMost-more}
use eloquence.Bridge.Client.{Client, CbState, new_client, unregister_client, find_client_by_id}
use eloquence.Bridge.Client.Lockstep.{Lockstep}
use eloquence.Bridge.Client.Invariant.{IsValid, new_client-IsValid}
use eloquence.Bridge.Server.{set_client, attach, attach_state}

-- A client after `n` steps of the server.
pub record ClientOk (n : ℕ) (c : Client) : Type 0 where
  pub valid : IsValid c
  pub ids : AtMost (1 + n) c.handles

-- The clients are valid, and their ids descend from below `bound`, to 1 at least.
abbrev pub ClientsOk : ℕ → ℕ → List Client → Type 0
ClientsOk n bound [] = Unit
ClientsOk n bound (c ∷ cs) =
    ClientOk n c × (1 ≤ c.client_id) × (c.client_id < bound) × ClientsOk n c.client_id cs

pub ClientsOk-more : (n b : ℕ) (cs : List Client) → ClientsOk n b cs → ClientsOk (1 + n) b cs
ClientsOk-more n b [] h = tt
ClientsOk-more n b (c ∷ cs) (k, l, m, h) = (
  record { valid = k.valid; ids = AtMost-more (1 + n) c.handles k.ids },
  l,
  m,
  ClientsOk-more n c.client_id cs h,
)

ClientsOk-weaken : (n b d : ℕ) (cs : List Client) → b ≤ d → ClientsOk n b cs → ClientsOk n d cs
ClientsOk-weaken n b d [] l h = tt
ClientsOk-weaken n b d (c ∷ cs) l (k, low, high, h) = (k, low, omega arith, h)

pub more-ClientOk : (n : ℕ) (c : Client) → ClientOk n c → ClientOk (1 + n) c
more-ClientOk n c k = record { valid = k.valid; ids = AtMost-more (1 + n) c.handles k.ids }

-- The client that is found is one of the list, with the id that was looked for.
pub find_client_by_id_lem :
    (n b : ℕ) (cs : List Client) (cid : ℕ) (c : Client)
    → ClientsOk n b cs
    → find_client_by_id cs cid ≡ some c
    → ClientOk n c × (c.client_id ≡ cid)
unfolding find_client_by_id
find_client_by_id_lem n b [] cid c h e = cc
find_client_by_id_lem n b (x ∷ cs) cid c h e = elim (Bool-cases (x.client_id == cid)) [
  | inl this ↦ let same : x ≡ c = ground arith in rw (← same) (h.0, ground arith)
  | inr other ↦ find_client_by_id_lem n x.client_id cs cid c h.3 (ground arith)
]

pub set_client-ClientsOk :
    (n b : ℕ) (cs : List Client) (c : Client)
    → ClientsOk n b cs
    → ClientOk n c
    → ClientsOk n b (set_client c cs)
unfolding set_client
set_client-ClientsOk n b [] c h k = tt
set_client-ClientsOk n b (x ∷ cs) c h k = elim (Bool-cases (x.client_id == c.client_id)) [
  | inl this ↦
      let same : x.client_id ≡ c.client_id = ground arith in
      rw this (k, rw (← same) h.1, rw (← same) h.2, rw (← same) h.3)
  | inr other ↦ rw other (h.0, h.1, h.2, set_client-ClientsOk n x.client_id cs c h.3 k)
]

pub unregister_client-ClientsOk :
    (n b : ℕ) (cs : List Client) (cid : ℕ)
    → ClientsOk n b cs
    → ClientsOk n b (unregister_client cid cs)
unfolding unregister_client
unregister_client-ClientsOk n b [] cid h = tt
unregister_client-ClientsOk n b (x ∷ cs) cid h = elim (Bool-cases (x.client_id == cid)) [
  | inl this ↦ rw this (ClientsOk-weaken n x.client_id b cs (omega (arith, h.2)) h.3)
  | inr other ↦ rw other (h.0, h.1, h.2, unregister_client-ClientsOk n x.client_id cs cid h.3)
]

-- Attaching a channel puts every callback state that is in use on it.
attach-Lockstep :
    (fd old : ℕ) (es : List HandleEntry) (cs : List CbState) (n : ℕ)
    → RowOk es n
    → Lockstep old es cs
    → Lockstep fd es (map (attach_state fd) cs)
attach-Lockstep fd old [] [] n v l = tt
attach-Lockstep fd old [] (c ∷ cs) n v l = absurd l
attach-Lockstep fd old (x ∷ es) [] n v l = absurd l
attach-Lockstep fd old (x ∷ es) (c ∷ cs) n v l =
    ground (arith, attach-Lockstep fd old es cs n v.1 l.1)

pub attach-ClientOk : (n fd : ℕ) (c : Client) → ClientOk n c → ClientOk n (attach fd c)
attach-ClientOk n fd c k = record {
  valid = record {
    handles = k.valid.handles;
    states =
        attach-Lockstep fd c.cb_fd c.handles.eci.entries c.cb_states _ k.valid.handles.eci.row
          k.valid.states;
  };
  ids = k.ids;
}

pub new_client-ClientOk : (n fd cid : ℕ) → ClientOk n (new_client fd cid)
unfolding new_client
new_client-ClientOk n fd cid = record {
  valid = new_client-IsValid fd cid;
  ids = record { eci = omega arith; dict = omega arith; filter = omega arith };
}
