-- ===== src/Logger/Drain.antt =====
-- Proofs on the rounds of the worker, when nothing else moves.
use dns_plus_plus.Base.{
  ℕ, suc, ◌+◌, ◌≤◌, ◌<◌, ◌≡◌, ◌≢◌, refl, sym, ap, subst, ◌∙◌, Bool, true, false, List, [], ◌∷◌,
  ◌++◌, append-nil, append_assoc, length, Text, arith,
}
use dns_plus_plus.Logger.Steps.{
  Place, Logger, push_log, stop, is_nil, print_front, work_at, work, works, Reach, started, pushed,
  stopped, worked,
}
use dns_plus_plus.Logger.Order.{lines-Reach}

abbrev pub at_place : List Text → Bool → List Text → Place → Logger
at_place logs running printed worker = record {
  logs = logs;
  running = running;
  printed = printed;
  worker = worker;
}

-- The inner loop prints all that waits and ends at the test.
pub works_draining :
    (logs printed : List Text) (running : Bool)
    → works (suc (length logs)) (at_place logs running printed Place.draining)
      ≡ at_place [] running (printed ++ logs) Place.testing
unfolding works work work_at print_front
works_draining [] printed running =
    ap (λ t. at_place [] running t Place.testing) (sym (append-nil printed))
works_draining (line ∷ logs) printed running =
    works_draining logs (printed ++ (line ∷ [])) running
    ∙ ap (λ t. at_place [] running t Place.testing) (append_assoc printed (line ∷ []) logs)

-- A round from the wait, with lines there or with the end called.
works_waiting :
    (line : Text) (logs printed : List Text) (running : Bool)
    → works
        (suc (suc (length (line ∷ logs))))
        (at_place (line ∷ logs) running printed Place.waiting)
      ≡ at_place [] running (printed ++ (line ∷ logs)) Place.testing
unfolding works work work_at is_nil
works_waiting line logs printed running = works_draining (line ∷ logs) printed running

-- What a number of turns prints.
pub record IsPrinted (bound : ℕ) (l : Logger) (ms : List Text) : Type 0 where
  pub turns : ℕ
  pub turns-le : turns ≤ bound
  pub same : (works turns l).printed ≡ ms
  pub empty : (works turns l).logs ≡ []

waiting-IsPrinted :
    (logs printed : List Text)
    → IsPrinted (length logs + 2) (at_place logs true printed Place.waiting) (printed ++ logs)
unfolding works
waiting-IsPrinted [] printed = record {
  turns = 0;
  turns-le = omega arith;
  same = sym (append-nil printed);
  empty = refl;
}
waiting-IsPrinted (line ∷ logs) printed = record {
  turns = suc (suc (length (line ∷ logs)));
  turns-le = omega arith;
  same = ap (λ l. l.printed) (works_waiting line logs printed true);
  empty = ap (λ l. l.logs) (works_waiting line logs printed true);
}

IsPrinted-mono :
    {bound : ℕ} {l : Logger} {ms : List Text} (more : ℕ)
    → bound ≤ more
    → IsPrinted bound l ms
    → IsPrinted more l ms
IsPrinted-mono more h p = record {
  turns = p.turns;
  turns-le = omega (arith, p.turns-le);
  same = p.same;
  empty = p.empty;
}

IsPrinted-work :
    {bound : ℕ} {l : Logger} {ms : List Text} (more : ℕ)
    → bound < more
    → IsPrinted bound (work l) ms
    → IsPrinted more l ms
unfolding works
IsPrinted-work more h p = record {
  turns = suc p.turns;
  turns-le = omega (arith, p.turns-le);
  same = p.same;
  empty = p.empty;
}

running-IsPrinted :
    (logs printed : List Text) (p : Place)
    → p ≢ Place.exited
    → IsPrinted (length logs + 3) (at_place logs true printed p) (printed ++ logs)
unfolding work work_at
running-IsPrinted logs printed Place.testing h =
    IsPrinted-work (length logs + 3) (omega arith) (waiting-IsPrinted logs printed)
running-IsPrinted logs printed Place.waiting h =
    IsPrinted-mono (length logs + 3) (omega arith) (waiting-IsPrinted logs printed)
running-IsPrinted logs printed Place.draining h = record {
  turns = suc (length logs);
  turns-le = omega arith;
  same = ap (λ l. l.printed) (works_draining logs printed true);
  empty = ap (λ l. l.logs) (works_draining logs printed true);
}
running-IsPrinted logs printed Place.exited h = elim (h refl) [ ]

-- Only the destructor ends the worker.
work_at_stopped :
    (p : Place) (l : Logger)
    → (p ≡ Place.exited → l.running ≡ false)
    → p ≡ l.worker
    → (work_at p l).worker ≡ Place.exited
    → (work_at p l).running ≡ false
unfolding work_at is_nil print_front
work_at_stopped Place.testing l h w e = ground arith
work_at_stopped Place.waiting l h w e = ground arith
work_at_stopped Place.draining l h w e = ground arith
work_at_stopped Place.exited l h w e = h refl

Reach-stopped :
    {ms : List Text} {l : Logger} → Reach ms l → l.worker ≡ Place.exited → l.running ≡ false
unfolding push_log stop work
Reach-stopped started e = cc
Reach-stopped (pushed m r free on) e = Reach-stopped r e
Reach-stopped (stopped r free) e = refl
Reach-stopped (worked {l} r) e = work_at_stopped l.worker l (Reach-stopped r) refl e

-- From every reachable state of a logger that is not destroyed, the worker prints all the lines
-- pushed, in their order, within three turns and one for each line that waits.
pub Reach-IsPrinted :
    {ms : List Text} {l : Logger}
    → Reach ms l
    → l.running ≡ true
    → IsPrinted (length l.logs + 3) l ms
Reach-IsPrinted {l} r on =
    subst (IsPrinted (length l.logs + 3) l) (lines-Reach r) (while_running l.running on refl)
  where
    while_running :
        (b : Bool)
        → b ≡ true
        → l.running ≡ b
        → IsPrinted (length l.logs + 3) (at_place l.logs b l.printed l.worker) (l.printed ++ l.logs)
    while_running true e same =
        running-IsPrinted l.logs l.printed l.worker
          (λ w. let wrong : true ≡ false = sym same ∙ Reach-stopped r w in cc)
    while_running false e same = cc
