-- ===== src/Shell/Program/Drain.antt =====
-- The statements of tools/wcsh_program.c that an idle event loop runs.
use mathlib.Core.Path.{subst}
use webcom_sdk_c.Prelude.{
  ℕ, zero, suc, ◌≡◌, refl, sym, ap, ◌∙◌, true, false, List, [], ◌∷◌, ◌++◌, All, append_assoc,
  append-nil, lt→ltb, ltb, ◌<◌, ◌+◌, length-append, inl, inr, Bool-cases, length, arith,
}
use webcom_sdk_c.Shell.Program.Queue.{
  IsCounted, remove_head-IsCounted, Event, made, idle, idle_turn, happen, happen_all,
}
use webcom_sdk_c.Shell.Program.{
  Statement, Program, program_init, append, resume, call, program_append, program_resume, resume_if,
  remove_head, program_is_finished, Call, calls, run_head, program_run_step,
}

-- As many turns of the idle loop.
pub idles : ℕ → List Event
idles zero = []
idles (suc n) = idle ∷ idles n

-- The count is that of the list, and the watcher is started.
abbrev IsRunner : Program → Type 0
IsRunner p = (p.idle_started ≡ true) × IsCounted p

-- A statement that is appended: it has a word.
pub data IsCommand : Statement → Type 0 where
  has_word : {a : List ℕ} {argv : Statement} → IsCommand (a ∷ argv)

pub appends : List Statement → List Event
appends [] = []
appends (s ∷ ss) = made (append s) ∷ appends ss

module _ (exec : Statement → List Call) where
  turn-run_head :
      (p : Program)
      → program_is_finished p ≡ false
      → idle_turn exec true p ≡ run_head exec p.statements p
  unfolding idle_turn program_run_step
  turn-run_head p h = rw (idle_turn, program_run_step, h) refl

  idle-run_head :
      (p : Program)
      → p.idle_started ≡ true
      → program_is_finished p ≡ false
      → happen exec idle p ≡ run_head exec p.statements p
  unfolding happen
  idle-run_head p i h = ap (λ b. idle_turn exec b p) i ∙ turn-run_head p h

  run_head-remove_head :
      (p : Program) (s : Statement) (ss : List Statement)
      → exec s ≡ []
      → run_head exec (s ∷ ss) p ≡ remove_head (record p { executed = p.executed ++ s ∷ [] })
  unfolding run_head calls
  run_head-remove_head p s ss q =
      ap (λ ks. remove_head (calls ks (record p { executed = p.executed ++ s ∷ [] }))) q

  not_finished :
      (p : Program) (s : Statement) (ss : List Statement)
      → p.statements ≡ s ∷ ss
      → IsCounted p
      → program_is_finished p ≡ false
  unfolding program_is_finished IsCounted
  not_finished p s ss e c = ground (arith, c, ap length e)

  remove_head-idle_started : (p : Program) → (remove_head p).idle_started ≡ p.idle_started
  unfolding remove_head
  remove_head-idle_started p = ground arith

  idle-run :
      (p : Program) (s : Statement) (ss : List Statement)
      → exec s ≡ []
      → p.statements ≡ s ∷ ss
      → IsRunner p
      → ((happen exec idle p).statements ≡ ss)
        × IsRunner (happen exec idle p)
        × ((happen exec idle p).executed ≡ p.executed ++ s ∷ [])
  idle-run p s ss q e (i, c) =
      let r : Program = record p { executed = p.executed ++ s ∷ [] } in
      let (l, n, x) = remove_head-IsCounted r s ss e (unfold IsCounted in c) in
      subst (λ x. (x.statements ≡ ss) × IsRunner x × (x.executed ≡ p.executed ++ s ∷ []))
        (sym (
          idle-run_head p i (not_finished p s ss e c)
          ∙ ap (λ ts. run_head exec ts p) e
          ∙ run_head-remove_head p s ss q))
        (l, (remove_head-idle_started r ∙ i, n), x)

  idles-run :
      (ss : List Statement) (p : Program)
      → ((s : Statement) → exec s ≡ [])
      → IsRunner p
      → p.statements ≡ ss
      → ((happen_all exec (idles (length ss)) p).statements ≡ [])
        × ((happen_all exec (idles (length ss)) p).executed ≡ p.executed ++ ss)
  unfolding happen_all idles
  idles-run [] p q c e = (e, sym (append-nil p.executed))
  idles-run (s ∷ ss) p q c e =
      let (l, n, x) = idle-run p s ss (q s) e c in
      let (f, g) = idles-run ss (happen exec idle p) q n l in
      (f, g ∙ ap (λ ts. ts ++ ss) x ∙ append_assoc p.executed (s ∷ []) ss)

  resume-kept :
      (p : Program)
      → ((call resume p).statements ≡ p.statements)
        × ((call resume p).executed ≡ p.executed)
        × ((call resume p).pending_commands ≡ p.pending_commands)
  unfolding call program_resume
  resume-kept p = elim (Bool-cases (ltb 0 p.pending_commands)) [
    | inl h ↦ rw h (refl, refl, refl)
    | inr h ↦ rw h (refl, refl, refl)
  ]

  resume-idle_started : (p : Program) → 0 < p.pending_commands → (call resume p).idle_started ≡ true
  unfolding call program_resume
  resume-idle_started p h = rw (lt→ltb 0 p.pending_commands h) refl

  resumed-run :
      (ss : List Statement) (p : Program)
      → ((s : Statement) → exec s ≡ [])
      → IsCounted p
      → p.statements ≡ ss
      → ((happen_all exec (idles (length ss)) (call resume p)).statements ≡ [])
        × ((happen_all exec (idles (length ss)) (call resume p)).executed ≡ p.executed ++ ss)
  unfolding happen_all idles IsCounted
  resumed-run [] p q c e = let (k, x, n) = resume-kept p in (k ∙ e, x ∙ sym (append-nil p.executed))
  resumed-run (s ∷ ss) p q c e =
      let (k, x, n) = resume-kept p in
      let i = resume-idle_started p (rw (c, e) (omega arith)) in
      let (f, g) = idles-run (s ∷ ss) (call resume p) q (i, n ∙ c ∙ ap length (sym k)) (k ∙ e) in
      (f, g ∙ ap (λ ts. ts ++ s ∷ ss) x)

  -- Where commands do not change the program, whose count is that of its list, resuming it and as
  -- many idle turns as statements wait run all of them, in order, paused or not.
  pub happen_all-resumed :
      (p : Program)
      → ((s : Statement) → exec s ≡ [])
      → IsCounted p
      → ((happen_all exec (made resume ∷ idles (length p.statements)) p).statements ≡ [])
        × ((happen_all exec (made resume ∷ idles (length p.statements)) p).executed
            ≡ p.executed ++ p.statements)
  unfolding happen_all happen
  happen_all-resumed p q c = resumed-run p.statements p q c refl

  -- The program is running, its watcher is started where the runner is active, and its count is
  -- that of its list.
  record IsReady (p : Program) : Type 0 where
    running : p.is_running ≡ true
    watched : p.is_active ≡ p.idle_started
    counted : IsCounted p

  -- What an appended statement makes of a program.
  record IsFilled (p q : Program) (s : Statement) : Type 0 where
    listed : q.statements ≡ p.statements ++ s ∷ []
    same : q.executed ≡ p.executed
    started : q.idle_started ≡ true
    ready : IsReady q

  append-IsFilled :
      (a : List ℕ) (argv : Statement) (p : Program)
      → IsReady p
      → IsFilled p (call (append (a ∷ argv)) p) (a ∷ argv)
  unfolding call program_append resume_if program_resume IsCounted
  append-IsFilled a argv p r =
      let n = length-append p.statements ((a ∷ argv) ∷ []) in
      let k = lt→ltb 0 (p.pending_commands + 1) (omega arith) in
      elim (Bool-cases p.is_active) [
        | inl h ↦
            rw (call, program_append, k, r.running, h)
              (record {
                listed = refl;
                same = refl;
                started = sym r.watched ∙ h;
                ready = record {
                  running = refl;
                  watched = sym h ∙ r.watched;
                  counted = omega (arith, n, r.counted);
                };
              })
        | inr h ↦
            rw (call, program_append, k, r.running, h, resume_if, program_resume, k)
              (record {
                listed = refl;
                same = refl;
                started = refl;
                ready = record {
                  running = refl;
                  watched = refl;
                  counted = omega (arith, n, r.counted);
                };
              })
      ]

  command-IsFilled :
      (s : Statement) (p : Program) → IsCommand s → IsReady p → IsFilled p (call (append s) p) s
  command-IsFilled s p has_word r = append-IsFilled _ _ p r

  -- What waits and what is appended is run, in order, in as many idle turns.
  RunsAll : List Statement → Program → Type 0
  RunsAll ss p =
      let q = happen_all exec (appends ss ++ idles (length (p.statements ++ ss))) p in
      (q.statements ≡ []) × (q.executed ≡ p.executed ++ (p.statements ++ ss))

  append-RunsAll :
      (s : Statement) (ss : List Statement) (p : Program)
      → IsFilled p (call (append s) p) s
      → RunsAll ss (call (append s) p)
      → RunsAll (s ∷ ss) p
  unfolding RunsAll happen_all happen appends
  append-RunsAll s ss p f (x, y) =
      let p1 = call (append s) p in
      let k : p1.statements ++ ss ≡ p.statements ++ s ∷ ss =
        ap (λ ts. ts ++ ss) f.listed ∙ append_assoc p.statements (s ∷ []) ss in
      subst
        (λ ts.
          ((happen_all exec (appends ss ++ idles (length ts)) p1).statements ≡ [])
          × ((happen_all exec (appends ss ++ idles (length ts)) p1).executed ≡ p.executed ++ ts))
        k (x, y ∙ ap (λ r. r ++ (p1.statements ++ ss)) f.same)

  started-RunsAll :
      (ss : List Statement) (p : Program)
      → ((s : Statement) → exec s ≡ [])
      → All IsCommand ss
      → IsReady p
      → p.idle_started ≡ true
      → RunsAll ss p
  unfolding RunsAll appends
  started-RunsAll [] p q a r i =
      subst
        (λ ts.
          ((happen_all exec (idles (length ts)) p).statements ≡ [])
          × ((happen_all exec (idles (length ts)) p).executed ≡ p.executed ++ ts))
        (sym (append-nil p.statements)) (idles-run p.statements p q (i, r.counted) refl)
  started-RunsAll (s ∷ ss) p q a r i =
      let f = command-IsFilled s p a.0 r in
      append-RunsAll s ss p f (started-RunsAll ss (call (append s) p) q a.1 f.ready f.started)

  -- From the beginning, where commands do not change the program, statements that are appended are
  -- all run, in order, in as many idle turns.
  pub happen_all-appends :
      (ss : List Statement)
      → ((s : Statement) → exec s ≡ [])
      → All IsCommand ss
      → ((happen_all exec (appends ss ++ idles (length ss)) program_init).statements ≡ [])
        × ((happen_all exec (appends ss ++ idles (length ss)) program_init).executed ≡ ss)
  unfolding happen_all idles appends RunsAll
  happen_all-appends [] q a = (refl, refl)
  happen_all-appends (s ∷ ss) q a =
      let r : IsReady program_init = record {
        running = refl;
        watched = refl;
        counted = unfold IsCounted in refl;
      } in
      let f = command-IsFilled s program_init a.0 r in
      append-RunsAll s ss program_init f
        (started-RunsAll ss (call (append s) program_init) q a.1 f.ready f.started)
