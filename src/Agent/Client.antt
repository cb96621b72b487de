-- ===== src/Agent/Client.antt =====
-- `AgentClient` of clawpot-server/src/agent/client.rs: the handshake with Firecracker's vsock socket,
-- and the wait for the agent. The socket, the agent's answers and the clock are parameters.
use clawpot.Common.{
  ℕ, zero, suc, ◌+◌, ◌*◌, ◌/◌, ◌≤◌, ◌<◌, leb, Bool, Bool-cases, Option-cases, inl, inr, true, false,
  not, ◌++◌, Text, codes, dec, trim, starts_with, Result, ok, err, Option, none, some,
  if◌then◌else◌, ◌≡◌, subst, dec_lt, arith,
}

-- `AGENT_VSOCK_PORT`
abbrev pub agent_vsock_port : ℕ
agent_vsock_port = 10051

pub data Error : Type 0 where
  no_socket write_failed read_failed : Error
  refused : Text → Error

pub record Vsock : Type 0 where
  pub connects : Bool
  pub writes : Text → Bool
  pub answers : Text → Option Text  -- the line that answers the command

abbrev pub connect_cmd : Text
connect_cmd = codes "CONNECT " ++ (dec agent_vsock_port ++ codes "\n")

abbrev answered : Option Text → Result Error (Unit {0})
answered none = err read_failed
answered (some response) =
    if starts_with response (codes "OK") then ok tt else err (refused (trim response))

-- The handshake; the channel over the stream is tonic's.
unfoldable pub connect : Vsock → Result Error (Unit {0})
unfolding starts_with trim dec
connect s =
    if not s.connects
    then err no_socket
    else if s.writes connect_cmd
    then answered (s.answers connect_cmd)
    else err write_failed

-- How the wait ends: with a client, at which attempt; or without; or never, at an attempt that hangs.
pub data Waited : Type 0 where
  ready gave_up hangs : (attempt : ℕ) → Waited
  out_of_rounds : Waited

module _ (attempt : ℕ → Option Bool) (elapsed : ℕ → ℕ) (timeout : ℕ) where
  -- After attempt `k`, given what the rounds behind it do. Nothing limits the time of an attempt.
  abbrev pub after_attempt : Option Bool → (k : ℕ) → Waited → Waited
  after_attempt none k again = hangs k
  after_attempt (some true) k again = ready k
  after_attempt (some false) k again = if leb timeout (elapsed k) then gave_up k else again

  -- The loop. `attempt k` is whether attempt `k` connects and finds the agent healthy, if it returns at
  -- all, and `elapsed k` the milliseconds from the start to its end.
  unfoldable pub attempts : (rounds k : ℕ) → Waited
  attempts zero k = out_of_rounds
  attempts (suc rounds) k = let again = attempts rounds (suc k) in after_attempt (attempt k) k again

  unfoldable pub wait_ready : Waited
  unfolding attempts
  wait_ready = attempts (timeout / 500 + 2) 0

  -- An attempt that returns, finds the agent not ready, and ends within the timeout.
  abbrev pub Failed : ℕ → Type 0
  Failed j = (attempt j ≡ some false) × (elapsed j < timeout)

  -- The wait, from attempt `k` on.
  pub data Waits (k : ℕ) : Waited → Type 0 where
    found :
        (n : ℕ)
        → k ≤ n
        → attempt n ≡ some true
        → ((j : ℕ) → k ≤ j → j < n → Failed j)
        → Waits k (ready n)
    missed :
        (n : ℕ)
        → k ≤ n
        → attempt n ≡ some false
        → timeout ≤ elapsed n
        → ((j : ℕ) → k ≤ j → j < n → Failed j)
        → n * 500 ≤ timeout + 499
        → Waits k (gave_up n)
    stuck :
        (n : ℕ)
        → k ≤ n
        → attempt n ≡ none
        → ((j : ℕ) → k ≤ j → j < n → Failed j)
        → n * 500 ≤ timeout + 499
        → Waits k (hangs n)

  module _ (k : ℕ) (failed : Failed k) where
    earlier :
        (n : ℕ) → ((j : ℕ) → suc k ≤ j → j < n → Failed j) → (j : ℕ) → k ≤ j → j < n → Failed j
    earlier n later j a b = elim (dec_lt k j) [
      | yes p ↦ later j p b
      | no p ↦ subst (λ i. Failed i) (omega arith) failed
    ]

    Waits-earlier : {w : Waited} → Waits (suc k) w → Waits k w
    Waits-earlier (found n a h e) = found n (omega arith) h (earlier n e)
    Waits-earlier (missed n a h t e b) = missed n (omega arith) h t (earlier n e) b
    Waits-earlier (stuck n a h e b) = stuck n (omega arith) h (earlier n e) b

  -- `sleep` takes 500 ms at least.
  module _ (slept : (k : ℕ) → k * 500 ≤ elapsed k) where
    attempts-Waits :
        (rounds k : ℕ)
        → timeout / 500 + 2 ≤ rounds + k
        → k * 500 ≤ timeout + 499
        → Waits k (attempts rounds k)
    unfolding attempts
    attempts-Waits zero k enough near = absurd (omega arith)
    attempts-Waits (suc rounds) k enough near = elim (Option-cases (attempt k)) [
      | inl h ↦ rw h (stuck k (omega arith) h (λ j a b. absurd (omega arith)) near)
      | inr (true, h) ↦ rw h (found k (omega arith) h (λ j a b. absurd (omega arith)))
      | inr (false, h) ↦ elim (Bool-cases (leb timeout (elapsed k))) [
        | inl t ↦
            rw (h, t)
              (missed k (omega arith) h (ground (arith, t)) (λ j a b. absurd (omega arith)) near)
        | inr t ↦
            let in_time : elapsed k < timeout = ground (arith, t) in
            rw (h, t)
              (Waits-earlier k (h, in_time)
                (attempts-Waits rounds (suc k) (omega arith) (omega (arith, slept k, in_time))))
      ]
    ]

    -- Where each sleep takes 500 ms at least, `wait_ready` ends, if each of its attempts returns: with
    -- the client of the first attempt that finds the agent ready, every one before it having ended within
    -- the timeout; or without, after the first attempt that ends past the timeout, none having found the
    -- agent ready. It hangs exactly at an attempt that does not return. It makes at most one attempt per
    -- 500 ms of the timeout begun, and one more.
    pub wait_ready-Waits : Waits 0 wait_ready
    unfolding wait_ready
    wait_ready-Waits = attempts-Waits (timeout / 500 + 2) 0 (omega arith) (omega arith)
