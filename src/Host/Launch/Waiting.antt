-- ===== src/Host/Launch/Waiting.antt =====
-- How the start of the bridge by host/shim_launch.c ends, and that both sides mean the same socket.
use eloquence.Base.{
  ℕ, zero, suc, ◌+◌, ◌≤◌, ◌<◌, ◌≡◌, ◌↔◌, refl, Bool, true, Option, none, some, List, ◌++◌, take,
  length, length-take, take_short, ◌==◌, arith, codes, Bool-cases, ◌⊎◌, inl, inr,
}
use eloquence.Bridge.Paths.{printed, get_socket_path}
use eloquence.Host.Launch.{
  made_socket_path, shim_get_socket_path, wait, wait_rounds, shim_launch_bridge, printed_long,
}

printed_idem : (s : List ℕ) → printed (printed s) ≡ printed s
printed_idem s = take_short 255 (take 255 s) (omega (arith, length-take 255 s))

apart : (i k : ℕ) → i ≤ k → (k ≡ i) ⊎ (suc i ≤ k)
apart i k h = ground arith

made_path_agrees :
    (env runtime runtime' : Option (List ℕ))
    → get_socket_path (some (made_socket_path env runtime)) runtime' ≡ made_socket_path env runtime
made_path_agrees (some env) runtime runtime' = printed_idem env
made_path_agrees none (some dir) runtime' = printed_idem _
made_path_agrees none none runtime' = refl

-- A bridge that the host starts with its own path in the environment listens on the host's path, whatever the
-- environment of the host was, and whatever path its buffer of 256 bytes held.
pub get_socket_path_agrees :
    (held : List ℕ) (env runtime runtime' : Option (List ℕ))
    → length held ≤ 255
    → get_socket_path (some (shim_get_socket_path held env runtime)) runtime'
      ≡ shim_get_socket_path held env runtime
unfolding shim_get_socket_path
get_socket_path_agrees held env runtime runtime' h = elim (Bool-cases (length held == 0)) [
  | inl b ↦ rw b (made_path_agrees env runtime runtime')
  | inr b ↦ rw b (take_short 255 held h)
]

wait_sees :
    (running : ℕ → Bool) (i n k : ℕ)
    → i ≤ k
    → k < i + n
    → running k ≡ true
    → wait running i n ≡ true
unfolding wait
wait_sees running i zero k h l e = absurd (omega arith)
wait_sees running i (suc n) k h l e = elim (Bool-cases (running i)) [
  | inl b ↦ rw b
  | inr b ↦ rw b (elim (apart i k h) [
    | inl same ↦ cc (b, rw same at e)
    | inr more ↦ wait_sees running (suc i) n k more (omega arith) e
  ])
]

wait_saw :
    (running : ℕ → Bool) (i n : ℕ)
    → wait running i n ≡ true
    → (k : ℕ) × (i ≤ k) × (k < i + n) × (running k ≡ true)
unfolding wait
wait_saw running i zero h = cc
wait_saw running i (suc n) h = elim (Bool-cases (running i)) [
  | inl b ↦ (i, omega arith, omega arith, b)
  | inr b ↦
      let (k, l, m, e) = wait_saw running (suc i) n (rw b at h) in (k, omega arith, omega arith, e)
]

-- Where the bridge's file can be executed and `fork` succeeds, the start succeeds if and only if the bridge is
-- seen at once or in one of 40 rounds.
pub shim_launch_bridge_lem :
    (running : ℕ → Bool) (executable : List ℕ → Bool) (writable : Bool) (runtime : Option (List ℕ))
    (dir sock : List ℕ)
    → executable (printed_long (dir ++ codes "/eci-bridge")) ≡ true
    → ((shim_launch_bridge running executable true writable runtime dir sock).0 ≡ 0)
      ↔ ((k : ℕ) × (k ≤ wait_rounds) × (running k ≡ true))
unfolding shim_launch_bridge
shim_launch_bridge_lem running executable writable runtime dir sock there = (
  λ h. elim (Bool-cases (running 0)) [
    | inl b ↦ (0, omega arith, b)
    | inr b ↦ elim (Bool-cases (wait running 1 wait_rounds)) [
      | inl w ↦ let (k, l, m, e) = wait_saw running 1 wait_rounds w in (k, omega arith, e)
      | inr w ↦ absurd (omega (arith, rw (b, there, w) at h))
    ]
  ],
  λ seen. elim (Bool-cases (running 0)) [
    | inl b ↦ rw b
    | inr b ↦
        let (k, l, e) = seen in
        let later : 1 ≤ k = elim (apart 0 k (omega arith)) [
          | inl same ↦ cc (b, rw same at e)
          | inr more ↦ more
        ] in
        let w = wait_sees running 1 wait_rounds k later (omega arith) e in rw (b, there, w)
  ],
)
