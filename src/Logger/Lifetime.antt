-- ===== src/Logger/Lifetime.antt =====
-- Proofs on the destructor: it returns, and what may be lost.
use dns_plus_plus.Base.{
  ℕ, zero, suc, ◌+◌, ◌≡◌, refl, ap, subst, ◌∙◌, Bool, true, false, List, [], ◌∷◌, ◌++◌, append-nil,
  append_assoc, length, Text, arith,
}
use native.Mathlib.Nat.{zero-add, suc-add}
use dns_plus_plus.Logger.Steps.{
  Place, Logger, push_log, stop, is_nil, work_at, work, works, Reach, started, pushed, stopped,
  worked,
}
use dns_plus_plus.Logger.Order.{works-Reach}
use dns_plus_plus.Logger.Drain.{at_place, works_draining}

works-add : (m n : ℕ) (l : Logger) → works (m + n) l ≡ works n (works m l)
unfolding works
works-add zero n l = rw (zero-add n) refl
works-add (suc m) n l = rw (suc-add m n) (works-add m n (work l))

-- The first `m` of `k` turns.
works_first : (k m n : ℕ) (l l' : Logger) → k ≡ m + n → works m l ≡ l' → works k l ≡ works n l'
works_first k m n l l' e h = ap (λ (i : ℕ). works i l) e ∙ works-add m n l ∙ ap (works n) h

works_exited :
    (n : ℕ) (logs printed : List Text) (running : Bool)
    → works n (at_place logs running printed Place.exited)
      ≡ at_place logs running printed Place.exited
unfolding works work work_at
works_exited zero logs printed running = refl
works_exited (suc n) logs printed running = works_exited n logs printed running

-- The end of a logger whose destructor runs: what is printed, and what is not.
abbrev pub left_at : Place → List Text → List Text
left_at Place.testing logs = logs
left_at Place.waiting logs = []
left_at Place.draining logs = []
left_at Place.exited logs = logs

abbrev pub printed_at : Place → List Text → List Text → List Text
printed_at Place.testing printed logs = printed
printed_at Place.waiting printed logs = printed ++ logs
printed_at Place.draining printed logs = printed ++ logs
printed_at Place.exited printed logs = printed

works_stopped :
    (logs printed : List Text) (p : Place)
    → works (length logs + 3) (at_place logs false printed p)
      ≡ at_place (left_at p logs) false (printed_at p printed logs) Place.exited
unfolding works work work_at is_nil
works_stopped logs printed Place.testing =
    works_first (length logs + 3) 1 (length logs + 2) _ _ (omega arith) refl
    ∙ works_exited (length logs + 2) logs printed false
works_stopped logs printed Place.waiting =
    works_first (length logs + 3) 1 (length logs + 2) _ _ (omega arith) (woken logs)
    ∙ works_first (length logs + 2) (suc (length logs)) 1 _ _ (omega arith)
        (works_draining logs printed false)
  where
    woken :
        (logs : List Text)
        → works 1 (at_place logs false printed Place.waiting)
          ≡ at_place logs false printed Place.draining
    woken [] = refl
    woken (line ∷ logs) = refl
works_stopped logs printed Place.draining =
    works_first (length logs + 3) (suc (length logs)) 2 _ _ (omega arith)
      (works_draining logs printed false)
works_stopped logs printed Place.exited = works_exited (length logs + 3) logs printed false

-- From every reachable state of a logger whose destructor has run up to `join`, the worker ends
-- within three turns and one for each line that waits. It prints the lines that wait if it is in
-- `cv.wait` or in the inner loop, and none of them if it is at the test of the outer loop or has
-- ended.
pub join_lem :
    {ms : List Text} {l : Logger}
    → Reach ms l
    → l.running ≡ false
    → ((works (length l.logs + 3) l).worker ≡ Place.exited)
      × ((works (length l.logs + 3) l).printed ≡ printed_at l.worker l.printed l.logs)
      × ((works (length l.logs + 3) l).logs ≡ left_at l.worker l.logs)
join_lem {l} r off = ended l.running off
  where
    ended :
        (b : Bool)
        → b ≡ false
        → ((works (length l.logs + 3) (at_place l.logs b l.printed l.worker)).worker ≡ Place.exited)
          × ((works (length l.logs + 3) (at_place l.logs b l.printed l.worker)).printed
              ≡ printed_at l.worker l.printed l.logs)
          × ((works (length l.logs + 3) (at_place l.logs b l.printed l.worker)).logs
              ≡ left_at l.worker l.logs)
    ended true e = cc
    ended false e =
        let h = works_stopped l.logs l.printed l.worker in
        (ap (λ t. t.worker) h, ap (λ t. t.printed) h, ap (λ t. t.logs) h)

pushes-Reach :
    (pre rest : List Text)
    → Reach pre (at_place pre true [] Place.testing)
    → Reach (pre ++ rest) (at_place (pre ++ rest) true [] Place.testing)
unfolding push_log
pushes-Reach pre [] r = rw (append-nil pre) r
pushes-Reach pre (x ∷ rest) r =
    subst (λ ms. Reach ms (at_place ms true [] Place.testing)) (append_assoc pre (x ∷ []) rest)
      (pushes-Reach (pre ++ (x ∷ [])) rest (pushed x r refl refl))

-- The worker prints any lines and is at its test again.
all_printed : (ms : List Text) → Reach ms (at_place [] true ms Place.testing)
unfolding works work work_at is_nil
all_printed [] = started
all_printed (x ∷ rest) =
    subst (Reach (x ∷ rest)) (works_draining (x ∷ rest) [] true)
      (works-Reach (suc (suc (suc (length (x ∷ rest))))) (pushes-Reach [] (x ∷ rest) started))

-- After any lines there is a run in which a further line is pushed, the logger is destroyed, and
-- the worker ends with the lines before printed and that line not.
pub push_lost :
    (ms : List Text) (m : Text)
    → (l : Logger) × Reach (ms ++ (m ∷ [])) l × (l.worker ≡ Place.exited) × (l.printed ≡ ms)
unfolding push_log stop work work_at
push_lost ms m = (_, worked (stopped (pushed m (all_printed ms) refl refl) refl), refl, refl)
