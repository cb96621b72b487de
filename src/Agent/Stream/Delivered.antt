-- ===== src/Agent/Stream/Delivered.antt =====
-- What `run_stream` of clawpot-agent/src/stream.rs has sent to its client when it ends.
use clawpot.Common.{
  ℕ, ◌+◌, Bool, true, false, List, [], ◌∷◌, ◌++◌, Option, none, some, Text, ◌≡◌, refl, sym, ap, ◌∙◌,
}
use clawpot.Agent.Exec.{Signed}
use clawpot.Agent.Stream.{
  Input, start, stdin_data, close_stdin, nothing, Process, Output, stdout_data, stderr_data,
  exit_code, error, Stream, started, forward, sent_if, Step, stdout_chunk, stdout_refused,
  stdout_end, stderr_chunk, stderr_refused, stderr_end, forward_one, forward_end, hang_up, finish,
  Reachable, here, next,
}
use mathlib.Core.List.{append_assoc, append-nil}

-- The chunks sent of stdout and of stderr, the first one first.
unfoldable pub stdout_sent : List Output → List Text
stdout_sent [] = []
stdout_sent (stdout_data c ∷ ms) = stdout_sent ms ++ c ∷ []
stdout_sent (stderr_data c ∷ ms) = stdout_sent ms
stdout_sent (exit_code n ∷ ms) = stdout_sent ms
stdout_sent (error e ∷ ms) = stdout_sent ms

unfoldable pub stderr_sent : List Output → List Text
stderr_sent [] = []
stderr_sent (stdout_data c ∷ ms) = stderr_sent ms
stderr_sent (stderr_data c ∷ ms) = stderr_sent ms ++ c ∷ []
stderr_sent (exit_code n ∷ ms) = stderr_sent ms
stderr_sent (error e ∷ ms) = stderr_sent ms

-- How many exit codes and errors were sent.
unfoldable pub endings : List Output → ℕ
endings [] = 0
endings (stdout_data c ∷ ms) = endings ms
endings (stderr_data c ∷ ms) = endings ms
endings (exit_code n ∷ ms) = endings ms + 1
endings (error e ∷ ms) = endings ms + 1

abbrev left : Option (List Text) → List Text
left none = []
left (some cs) = cs

-- Of the chunks `whole`, the first ones were sent; and if the client still takes messages, the rest
-- is what the reader has left.
abbrev Half :
    (sent : List Text) (reader : Option (List Text)) (taking : Bool) (whole : List Text) → Type 0
Half sent reader taking whole =
    (rest : List Text) × (sent ++ rest ≡ whole) × (taking ≡ true → rest ≡ left reader)

Half-chunk :
    (sent cs whole : List Text) (c : Text) (reader : Option (List Text)) (taking : Bool)
    → reader ≡ some (c ∷ cs)
    → taking ≡ true
    → Half sent reader taking whole
    → Half (sent ++ c ∷ []) (some cs) taking whole
Half-chunk sent cs whole c reader taking e k (rest, splits, same) = (
  cs,
  append_assoc sent (c ∷ []) cs ∙ ap (λ r. sent ++ r) (sym (same k ∙ ap left e)) ∙ splits,
  λ h. refl,
)

Half-refused :
    (sent whole : List Text) (reader : Option (List Text)) (taking : Bool)
    → taking ≡ false
    → Half sent reader taking whole
    → Half sent none taking whole
Half-refused sent whole reader taking k (rest, splits, same) = (rest, splits, λ h. absurd (cc))

Half-end :
    (sent whole : List Text) (reader : Option (List Text)) (taking : Bool)
    → reader ≡ some []
    → Half sent reader taking whole
    → Half sent none taking whole
Half-end sent whole reader taking e (rest, splits, same) = (rest, splits, λ h. same h ∙ ap left e)

Half-hang_up :
    (sent whole : List Text) (reader : Option (List Text)) (taking : Bool)
    → Half sent reader taking whole
    → Half sent reader false whole
Half-hang_up sent whole reader taking (rest, splits, same) = (rest, splits, λ h. absurd (cc))

module _ (code : Signed) (process : Process) (outs errs : List Text) where
  -- The messages before the exit code, where it was sent.
  abbrev Ended : Stream → Type 0
  Ended s = (ms : List Output) × (s.sent ≡ exit_code code ∷ ms) × (endings ms ≡ 0)

  record Inv (s : Stream) : Type 0 where
    out : Half (stdout_sent s.sent) s.stdout s.taking outs
    errors : Half (stderr_sent s.sent) s.stderr s.taking errs
    before : s.exited ≡ false → endings s.sent ≡ 0
    after : s.exited ≡ true → (s.stdout ≡ none) × (s.stderr ≡ none) × (s.taking ≡ true → Ended s)

  started-Inv : (input : List Input) → Inv (started outs errs input)
  unfolding stdout_sent stderr_sent endings
  started-Inv input = record {
    out = (outs, refl, λ h. refl);
    errors = (errs, refl, λ h. refl);
    before = λ h. refl;
    after = λ h. absurd (cc);
  }

  -- The forwarder touches none of it.
  forward-Inv : (accepts : Bool) (i : Input) (s : Stream) → Inv s → Inv (forward accepts i s)
  unfolding forward
  forward-Inv true (stdin_data d) s v = record {
    out = v.out;
    errors = v.errors;
    before = v.before;
    after = v.after;
  }
  forward-Inv false (stdin_data d) s v = record {
    out = v.out;
    errors = v.errors;
    before = v.before;
    after = v.after;
  }
  forward-Inv accepts (close_stdin b) s v = record {
    out = v.out;
    errors = v.errors;
    before = v.before;
    after = v.after;
  }
  forward-Inv accepts (start req) s v = record {
    out = v.out;
    errors = v.errors;
    before = v.before;
    after = v.after;
  }
  forward-Inv accepts nothing s v = record {
    out = v.out;
    errors = v.errors;
    before = v.before;
    after = v.after;
  }

  finish-Inv :
      (s : Stream) (taking : Bool)
      → s.taking ≡ taking
      → s.stdout ≡ none
      → s.stderr ≡ none
      → s.exited ≡ false
      → Inv s
      → Inv (record s {
        exited = true;
        forwarding = false;
        holds_stdin = false;
        sent = sent_if taking (exit_code code) s.sent;
      })
  unfolding stdout_sent stderr_sent endings
  finish-Inv s true t o e x v = record {
    out = v.out;
    errors = v.errors;
    before = λ h. absurd (cc);
    after = λ h. (o, e, λ k. (s.sent, refl, v.before x));
  }
  finish-Inv s false t o e x v = record {
    out = v.out;
    errors = v.errors;
    before = λ h. absurd (cc);
    after = λ h. (o, e, λ k. absurd (cc));
  }

  Step-Inv : {s t : Stream} → Step code process s t → Inv s → Inv t
  unfolding stdout_sent stderr_sent endings
  Step-Inv {s} (stdout_chunk c cs e w k) v = record {
    out = Half-chunk (stdout_sent s.sent) cs outs c s.stdout s.taking e k v.out;
    errors = v.errors;
    before = v.before;
    after = λ h. absurd (cc (e, (v.after h).0));
  }
  Step-Inv {s} (stdout_refused c cs e w k) v = record {
    out = Half-refused (stdout_sent s.sent) outs s.stdout s.taking k v.out;
    errors = v.errors;
    before = v.before;
    after = λ h. (refl, (v.after h).1, (v.after h).2);
  }
  Step-Inv {s} (stdout_end e w) v = record {
    out = Half-end (stdout_sent s.sent) outs s.stdout s.taking e v.out;
    errors = v.errors;
    before = v.before;
    after = λ h. (refl, (v.after h).1, (v.after h).2);
  }
  Step-Inv {s} (stderr_chunk c cs e w k) v = record {
    out = v.out;
    errors = Half-chunk (stderr_sent s.sent) cs errs c s.stderr s.taking e k v.errors;
    before = v.before;
    after = λ h. absurd (cc (e, (v.after h).1));
  }
  Step-Inv {s} (stderr_refused c cs e w k) v = record {
    out = v.out;
    errors = Half-refused (stderr_sent s.sent) errs s.stderr s.taking k v.errors;
    before = v.before;
    after = λ h. ((v.after h).0, refl, (v.after h).2);
  }
  Step-Inv {s} (stderr_end e w) v = record {
    out = v.out;
    errors = Half-end (stderr_sent s.sent) errs s.stderr s.taking e v.errors;
    before = v.before;
    after = λ h. ((v.after h).0, refl, (v.after h).2);
  }
  Step-Inv {s} (forward_one accepts i is f e) v =
      forward-Inv accepts i (record s { input = is })
        (record { out = v.out; errors = v.errors; before = v.before; after = v.after })
  Step-Inv (forward_end f e) v = record {
    out = v.out;
    errors = v.errors;
    before = v.before;
    after = v.after;
  }
  Step-Inv {s} (hang_up k) v = record {
    out = Half-hang_up (stdout_sent s.sent) outs s.stdout s.taking v.out;
    errors = Half-hang_up (stderr_sent s.sent) errs s.stderr s.taking v.errors;
    before = v.before;
    after = λ h. ((v.after h).0, (v.after h).1, λ t. absurd (cc));
  }
  Step-Inv {s} (finish o e x w) v = finish-Inv s s.taking refl o e x v

  Reachable-Inv : {s t : Stream} → Inv s → Reachable code process s t → Inv t
  Reachable-Inv v here = v
  Reachable-Inv v (next r st) = Step-Inv st (Reachable-Inv v r)

  -- What a client that stays has been sent.
  pub record Delivered (sent : List Output) : Type 0 where
    pub earlier : List Output
    pub last : sent ≡ exit_code code ∷ earlier
    pub one_ending : endings earlier ≡ 0
    pub stdout : stdout_sent earlier ≡ outs
    pub stderr : stderr_sent earlier ≡ errs

  ended-Delivered : (s : Stream) → Inv s → s.exited ≡ true → s.taking ≡ true → Delivered s.sent
  unfolding stdout_sent stderr_sent
  ended-Delivered s v x k =
      let (o, e, ended) = v.after x in
      let (ms, shape, none_before) = ended k in
      let (rest, splits, same) = v.out in
      let (rest', splits', same') = v.errors in
      record {
        earlier = ms;
        last = shape;
        one_ending = none_before;
        stdout =
            sym (append-nil (stdout_sent ms))
            ∙ ap (λ r. stdout_sent ms ++ r) (sym (same k ∙ ap left o))
            ∙ ap (λ l. stdout_sent l ++ rest) (sym shape)
            ∙ splits;
        stderr =
            sym (append-nil (stderr_sent ms))
            ∙ ap (λ r. stderr_sent ms ++ r) (sym (same' k ∙ ap left e))
            ∙ ap (λ l. stderr_sent l ++ rest') (sym shape)
            ∙ splits';
      }

  -- However the tasks take turns, and whatever of its output the process writes only once it has read
  -- some of its stdin: if the client takes messages to the end, a run that has ended has
  -- sent all chunks of stdout and all of stderr, each in their order, and then the exit code, and no
  -- other exit code or error.
  pub Reachable-Delivered :
      (input : List Input) (t : Stream)
      → Reachable code process (started outs errs input) t
      → t.exited ≡ true
      → t.taking ≡ true
      → Delivered t.sent
  Reachable-Delivered input t r x k = ended-Delivered t (Reachable-Inv (started-Inv input) r) x k
