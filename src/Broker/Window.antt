-- ===== src/Broker/Window.antt =====
-- The sliding window of the brake, and its specification by the history of all that passed.
use dns_plus_plus.Base.{
  ℕ, suc, ◌+◌, ◌-◌, ◌≤◌, ◌<◌, ◌≡◌, refl, sym, ap, ◌∙◌, inl, inr, Bool, true, false, List, [], ◌∷◌,
  ◌++◌, length, append_assoc, All, ltb, leb, if◌then◌else◌, Bool-cases, arith,
}
use dns_plus_plus.Broker.Brake.{purge, admit}

-- How many of the times lie at most `window` seconds before `now`.
abbrev pub count_recent : ℕ → ℕ → List ℕ → ℕ
count_recent window now [] = 0
count_recent window now (t ∷ log) =
    if ltb window (now - t) then count_recent window now log else suc (count_recent window now log)

-- The decisions on publications at the given times, by the queue of the broker ...
unfoldable pub decisions : ℕ → ℕ → List ℕ → List ℕ → List Bool
unfolding admit
decisions limit window [] queue = []
decisions limit window (now ∷ times) queue =
    let (queue', passes) = admit limit window now queue in
    passes ∷ decisions limit window times queue'

-- ... and by the history of all that passed.
unfoldable pub allowed : ℕ → ℕ → List ℕ → List ℕ → List Bool
allowed limit window [] log = []
allowed limit window (now ∷ times) log =
    let passes = ltb (count_recent window now log) limit in
    passes ∷ allowed limit window times (if passes then log ++ (now ∷ []) else log)

-- The clock does not run backwards.
abbrev pub Ascending : ℕ → List ℕ → Type 0
Ascending before [] = Unit {0}
Ascending before (t ∷ times) = (before ≤ t) × Ascending t times

abbrev pub IsAged : ℕ → ℕ → ℕ → Type 0
IsAged window now t = window < now - t

-- The history is what has left the queue, aged by then, followed by the queue, in order of time.
record Tracks (window before : ℕ) (queue log : List ℕ) : Type 0 where
  old : List ℕ
  split : log ≡ old ++ queue
  aged : All (IsAged window before) old
  ordered : Ascending 0 queue
  past : All (λ t. t ≤ before) queue

count_recent-append :
    (window now : ℕ) (xs ys : List ℕ)
    → count_recent window now (xs ++ ys) ≡ count_recent window now xs + count_recent window now ys
count_recent-append window now [] ys = omega arith
count_recent-append window now (x ∷ xs) ys = ground (arith, count_recent-append window now xs ys)

count_recent-aged :
    (window now : ℕ) (xs : List ℕ) → All (IsAged window now) xs → count_recent window now xs ≡ 0
count_recent-aged window now [] a = refl
count_recent-aged window now (x ∷ xs) a = ground (arith, count_recent-aged window now xs a.1)

IsAged-later :
    (window before now : ℕ) (xs : List ℕ)
    → before ≤ now
    → All (IsAged window before) xs
    → All (IsAged window now) xs
IsAged-later window before now [] h a = tt
IsAged-later window before now (x ∷ xs) h a = (omega arith, IsAged-later window before now xs h a.1)

past_later :
    (before now : ℕ) (xs : List ℕ) → before ≤ now → All (λ t. t ≤ before) xs → All (λ t. t ≤ now) xs
past_later before now [] h a = tt
past_later before now (x ∷ xs) h a = (omega arith, past_later before now xs h a.1)

All-append : (P : ℕ → Type 0) (xs ys : List ℕ) → All P xs → All P ys → All P (xs ++ ys)
All-append P [] ys a b = b
All-append P (x ∷ xs) ys a b = (a.0, All-append P xs ys a.1 b)

ordered_end :
    (low now : ℕ) (xs : List ℕ)
    → low ≤ now
    → Ascending low xs
    → All (λ t. t ≤ now) xs
    → Ascending low (xs ++ (now ∷ []))
ordered_end low now [] h a p = (h, tt)
ordered_end low now (x ∷ xs) h a p = (a.0, ordered_end x now xs p.0 a.1 p.1)

-- In an ordered queue all behind a recent entry is recent.
count_recent-ordered :
    (window now low : ℕ) (xs : List ℕ)
    → now - low ≤ window
    → Ascending low xs
    → count_recent window now xs ≡ length xs
count_recent-ordered window now low [] h a = refl
count_recent-ordered window now low (x ∷ xs) h a =
    ground (arith, count_recent-ordered window now x xs (omega arith) a.1)

-- What `purge` leaves: the dropped part is aged, and the rest is recent.
record Purged (window now : ℕ) (queue : List ℕ) : Type 0 where
  dropped : List ℕ
  split : queue ≡ dropped ++ purge now window queue
  aged : All (IsAged window now) dropped
  ordered : Ascending 0 (purge now window queue)
  past : All (λ t. t ≤ now) (purge now window queue)
  recent : count_recent window now (purge now window queue) ≡ length (purge now window queue)

weaken_order : (low : ℕ) (xs : List ℕ) → Ascending low xs → Ascending 0 xs
weaken_order low [] a = tt
weaken_order low (x ∷ xs) a = (omega arith, a.1)

purge-Purged :
    (window now : ℕ) (queue : List ℕ)
    → Ascending 0 queue
    → All (λ t. t ≤ now) queue
    → Purged window now queue
unfolding purge
purge-Purged window now [] o p = record {
  dropped = [];
  split = refl;
  aged = tt;
  ordered = tt;
  past = tt;
  recent = refl;
}
purge-Purged window now (t ∷ queue) o p = elim (Bool-cases (ltb window (now - t))) [
  | inl aged ↦
      let q = purge-Purged window now queue (weaken_order t queue o.1) p.1 in
      record {
        dropped = t ∷ q.dropped;
        split = rw aged (ap (◌∷◌ t) q.split);
        aged = (ground arith, q.aged);
        ordered = rw aged q.ordered;
        past = rw aged q.past;
        recent = rw aged q.recent;
      }
  | inr fresh ↦ record {
    dropped = [];
    split = rw fresh;
    aged = tt;
    ordered = rw fresh o;
    past = rw fresh p;
    recent = rw fresh (ground (arith, count_recent-ordered window now t queue (ground arith) o.1));
  }
]

module _ (window before now : ℕ) (queue log : List ℕ) (h : before ≤ now)
    (t : Tracks window before queue log) where
  purged : Purged window now queue
  purged = purge-Purged window now queue t.ordered (past_later before now queue h t.past)

  -- After the purge the history is aged entries followed by what is left of the queue.
  purged-Tracks : Tracks window now (purge now window queue) log
  purged-Tracks = record {
    old = t.old ++ purged.dropped;
    split =
        t.split
        ∙ ap (◌++◌ t.old) purged.split
        ∙ sym (append_assoc t.old purged.dropped (purge now window queue));
    aged =
        All-append (IsAged window now) t.old purged.dropped
          (IsAged-later window before now t.old h t.aged) purged.aged;
    ordered = purged.ordered;
    past = purged.past;
  }

  -- So its length is the number of recent publications.
  count_recent-purge : count_recent window now log ≡ length (purge now window queue)
  count_recent-purge =
      let p = purged-Tracks in
      ap (count_recent window now) p.split
      ∙ count_recent-append window now p.old (purge now window queue)
      ∙ omega (arith, count_recent-aged window now p.old p.aged, purged.recent)

  passed-Tracks : Tracks window now (purge now window queue ++ (now ∷ [])) (log ++ (now ∷ []))
  passed-Tracks =
      let p = purged-Tracks in
      record {
        old = p.old;
        split =
            ap (λ xs. xs ++ (now ∷ [])) p.split
            ∙ append_assoc p.old (purge now window queue) (now ∷ []);
        aged = p.aged;
        ordered = ordered_end 0 now (purge now window queue) (omega arith) p.ordered p.past;
        past = All-append (λ z. z ≤ now) (purge now window queue) (now ∷ []) p.past (omega arith);
      }

decisions-Tracks :
    (limit window before : ℕ) (times queue log : List ℕ)
    → Tracks window before queue log
    → Ascending before times
    → decisions limit window times queue ≡ allowed limit window times log
unfolding decisions allowed
decisions-Tracks limit window before [] queue log t a = refl
decisions-Tracks limit window before (now ∷ times) queue log t a =
    rw (count_recent-purge window before now queue log a.0 t)
      (elim (Bool-cases (leb limit (length (purge now window queue)))) [
        | inl full ↦
            rw (full, less (length (purge now window queue)) full)
              (ap (◌∷◌ false) (
                decisions-Tracks limit window now times _ log
                  (purged-Tracks window before now queue log a.0 t) a.1))
        | inr free ↦
            rw (free, more (length (purge now window queue)) free)
              (ap (◌∷◌ true) (
                decisions-Tracks limit window now times _ _
                  (passed-Tracks window before now queue log a.0 t) a.1))
      ])
  where
    less : (n : ℕ) → leb limit n ≡ true → ltb n limit ≡ false
    less n h = ground arith

    more : (n : ℕ) → leb limit n ≡ false → ltb n limit ≡ true
    more n h = ground arith

-- For publications whose times do not decrease, the queue of the brake decides as the full history
-- does: a publication passes exactly when fewer than the limit passed in the last window of
-- seconds.
pub decisions-allowed :
    (limit window : ℕ) (times : List ℕ)
    → Ascending 0 times
    → decisions limit window times [] ≡ allowed limit window times []
decisions-allowed limit window times a =
    decisions-Tracks limit window 0 times [] []
      (record { old = []; split = refl; aged = tt; ordered = tt; past = tt }) a
