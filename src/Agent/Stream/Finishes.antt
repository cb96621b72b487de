-- ===== src/Agent/Stream/Finishes.antt =====
-- That a run of `run_stream` in clawpot-agent/src/stream.rs ends, however its tasks take turns.
use clawpot.Common.{
  ℕ, zero, suc, ◌+◌, ◌<◌, ◌≤◌, length, Bool-cases, Bool, true, false, not, inl, inr, ◌⊎◌, List, [],
  ◌∷◌, Option, none, some, Text, ◌≡◌, refl, ap, arith,
}
use clawpot.Agent.Exec.{Signed}
use clawpot.Agent.Stream.{
  Process, Stream, Input, start, stdin_data, close_stdin, nothing, forward, Step, stdout_chunk,
  stdout_refused, stdout_end, stderr_chunk, stderr_refused, stderr_end, forward_one, forward_end,
  hang_up, finish,
}

-- A process that waits for nothing on its stdin; and one that waits for no more than its end.
abbrev pub Independent : Process → Type 0
Independent process =
    (written : List Text) (open_stdin : Bool)
    → ((left : List Text) → process.stdout_ready written open_stdin left ≡ true)
      × ((left : List Text) → process.stderr_ready written open_stdin left ≡ true)
      × (process.exits written open_stdin ≡ true)

abbrev pub EndsAtEof : Process → Type 0
EndsAtEof process =
    (written : List Text)
    → ((left : List Text) → process.stdout_ready written false left ≡ true)
      × ((left : List Text) → process.stderr_ready written false left ≡ true)
      × (process.exits written false ≡ true)

-- Nothing on its stdin holds the process up any more.
abbrev pub Unblocked : Process → Stream → Type 0
Unblocked process s = Independent process ⊎ ((s.holds_stdin ≡ false) × EndsAtEof process)

abbrev size : Option (List Text) → ℕ
size none = 0
size (some cs) = suc (length cs)

abbrev weight : Bool → ℕ
weight true = 1
weight false = 0

-- Each step makes less of it.
abbrev to_do : Stream → ℕ
to_do s =
    size s.stdout
    + size s.stderr
    + length s.input
    + weight s.forwarding
    + weight s.taking
    + weight (not s.exited)

module _ (code : Signed) (process : Process) where
  -- A step of a reader or of the wait: no message of the client comes, its stream stays open, and the
  -- forwarder goes on as before, up to the end.
  abbrev pub Own : Stream → Stream → Type 0
  Own s t =
      Step code process s t
      × (t.input ≡ s.input)
      × (t.taking ≡ s.taking)
      × (t.exited ≡ false → t.forwarding ≡ s.forwarding)

  -- Every run from the state ends, and until then there is always a step without the client.
  pub data EndsAlways : Stream → Type 0 where
    over : (s : Stream) → s.exited ≡ true → EndsAlways s
    going :
        (s t : Stream)
        → Own s t
        → ((u : Stream) → Step code process s u → EndsAlways u)
        → EndsAlways s

  forward-to_do : (accepts : Bool) (i : Input) (s : Stream) → to_do (forward accepts i s) ≤ to_do s
  unfolding forward
  forward-to_do true (stdin_data d) s = omega arith
  forward-to_do false (stdin_data d) s = omega arith
  forward-to_do accepts (close_stdin b) s = omega arith
  forward-to_do accepts (start req) s = omega arith
  forward-to_do accepts nothing s = omega arith

  Step-to_do : {s t : Stream} → Step code process s t → to_do t < to_do s
  Step-to_do (stdout_chunk c cs e w k) = omega (arith, ap size e)
  Step-to_do (stdout_refused c cs e w k) = omega (arith, ap size e)
  Step-to_do (stdout_end e w) = omega (arith, ap size e)
  Step-to_do (stderr_chunk c cs e w k) = omega (arith, ap size e)
  Step-to_do (stderr_refused c cs e w k) = omega (arith, ap size e)
  Step-to_do (stderr_end e w) = omega (arith, ap size e)
  Step-to_do {s} (forward_one accepts i is f e) =
      omega (arith, forward-to_do accepts i (record s { input = is }), ap length e)
  Step-to_do (forward_end f e) = omega (arith, ap weight f)
  Step-to_do (hang_up k) = omega (arith, ap weight k)
  Step-to_do (finish o e x w) = omega (arith, ap (λ b. weight (not b)) x)

  forward-closed :
      (accepts : Bool) (i : Input) (s : Stream)
      → s.holds_stdin ≡ false
      → (forward accepts i s).holds_stdin ≡ false
  unfolding forward
  forward-closed true (stdin_data d) s h = h
  forward-closed false (stdin_data d) s h = refl
  forward-closed accepts (close_stdin b) s h = refl
  forward-closed accepts (start req) s h = refl
  forward-closed accepts nothing s h = refl

  -- A stdin that is closed stays closed.
  Step-closed :
      {s t : Stream} → Step code process s t → s.holds_stdin ≡ false → t.holds_stdin ≡ false
  Step-closed (stdout_chunk c cs e w k) h = h
  Step-closed (stdout_refused c cs e w k) h = h
  Step-closed (stdout_end e w) h = h
  Step-closed (stderr_chunk c cs e w k) h = h
  Step-closed (stderr_refused c cs e w k) h = h
  Step-closed (stderr_end e w) h = h
  Step-closed {s} (forward_one accepts i is f e) h =
      forward-closed accepts i (record s { input = is }) h
  Step-closed (forward_end f e) h = refl
  Step-closed (hang_up k) h = h
  Step-closed (finish o e x w) h = refl

  Step-Unblocked :
      {s t : Stream} → Step code process s t → Unblocked process s → Unblocked process t
  Step-Unblocked st (inl free) = inl free
  Step-Unblocked st (inr (closed, eof)) = inr (Step-closed st closed, eof)

  -- The process does not keep the readers or the wait waiting.
  Ready : Stream → Type 0
  Ready s =
      ((left : List Text) → process.stdout_ready s.written s.holds_stdin left ≡ true)
      × ((left : List Text) → process.stderr_ready s.written s.holds_stdin left ≡ true)
      × (process.exits s.written s.holds_stdin ≡ true)

  Unblocked-Ready : (s : Stream) → Unblocked process s → Ready s
  unfolding Ready
  Unblocked-Ready s (inl free) = free s.written s.holds_stdin
  Unblocked-Ready s (inr (closed, eof)) = rw closed (eof s.written)

  read_stdout :
      (cs : List Text) (s : Stream) → Ready s → s.stdout ≡ some cs → (t : Stream) × Own s t
  unfolding Ready
  read_stdout [] s r e = (_, (stdout_end e (r.0 []), refl, refl, λ h. refl))
  read_stdout (c ∷ cs) s r e = elim (Bool-cases s.taking) [
    | inl k ↦ (_, (stdout_chunk c cs e (r.0 (c ∷ cs)) k, refl, refl, λ h. refl))
    | inr k ↦ (_, (stdout_refused c cs e (r.0 (c ∷ cs)) k, refl, refl, λ h. refl))
  ]

  read_stderr :
      (cs : List Text) (s : Stream) → Ready s → s.stderr ≡ some cs → (t : Stream) × Own s t
  unfolding Ready
  read_stderr [] s r e = (_, (stderr_end e (r.1 []), refl, refl, λ h. refl))
  read_stderr (c ∷ cs) s r e = elim (Bool-cases s.taking) [
    | inl k ↦ (_, (stderr_chunk c cs e (r.1 (c ∷ cs)) k, refl, refl, λ h. refl))
    | inr k ↦ (_, (stderr_refused c cs e (r.1 (c ∷ cs)) k, refl, refl, λ h. refl))
  ]

  progresses :
      (o e : Option (List Text)) (s : Stream)
      → Ready s
      → s.stdout ≡ o
      → s.stderr ≡ e
      → s.exited ≡ false
      → (t : Stream) × Own s t
  unfolding Ready
  progresses none none s r h k x = (_, (finish h k x r.2, refl, refl, λ y. absurd (cc)))
  progresses none (some cs) s r h k x = read_stderr cs s r k
  progresses (some cs) e s r h k x = read_stdout cs s r h

  ends_within : (n : ℕ) (s : Stream) → to_do s < n → Unblocked process s → EndsAlways s
  ends_within zero s few free = absurd (omega (arith, few))
  ends_within (suc n) s few free = elim (Bool-cases s.exited) [
    | inl x ↦ over s x
    | inr x ↦
        let (t, own) = progresses s.stdout s.stderr s (Unblocked-Ready s free) refl refl x in
        going s t own
          (λ u st. ends_within n u (omega (arith, Step-to_do st, few)) (Step-Unblocked st free))
  ]

  -- If nothing on its stdin holds the process up, since it needs none of it or since its stdin is closed
  -- and it needs no more than that, then however the tasks take turns, the run ends; and until it has,
  -- one of the readers or the wait for the process can take a step without a message of the client and
  -- without the forwarder: the client may be silent with its stream open, if it reads what it is sent,
  -- or may have hung up.
  pub run_stream-ends : (s : Stream) → Unblocked process s → EndsAlways s
  run_stream-ends s free = ends_within (suc (to_do s)) s (omega arith) free
