-- ===== src/Logger/Steps.antt =====
-- The logger as a machine of two threads: the owner, who pushes lines and at last destroys the logger,
-- and the worker. What a thread does while it holds the mutex is one step, up to the inner loop of
-- `process`, which takes a step for each line and keeps the mutex. A wake-up of `cv.wait` may come at
-- any time; what counts is the predicate.
use dns_plus_plus.Base.{
  ℕ, zero, suc, ◌≡◌, Bool, true, false, not, ◌||◌, List, [], ◌∷◌, ◌++◌, if◌then◌else◌, Text,
}

-- Where the worker is: at the test of `while (running)`, in `cv.wait`, in the inner loop with the mutex
-- held, or behind `process`.
pub data Place : Type 0 where
  testing waiting draining exited : Place

-- `printed` is what went to `std::cout`, oldest first.
pub record Logger : Type 0 where
  pub logs : List Text
  pub running : Bool
  pub printed : List Text
  pub worker : Place

-- The constructor starts the worker.
abbrev pub new_logger : Logger
new_logger = record { logs = []; running = true; printed = []; worker = Place.testing }

unfoldable pub push_log : Text → Logger → Logger
push_log msg l = record l { logs = l.logs ++ (msg ∷ []) }

-- The destructor, up to `join`.
unfoldable pub stop : Logger → Logger
stop l = record l { running = false }

unfoldable pub is_nil {ℓ} : {A : Type ℓ} → List A → Bool
is_nil [] = true
is_nil (x ∷ xs) = false

unfoldable pub print_front : List Text → Logger → Logger
print_front [] l = record l { worker = Place.testing }
print_front (line ∷ rest) l = record l { logs = rest; printed = l.printed ++ (line ∷ []) }

unfoldable pub work_at : Place → Logger → Logger
unfolding is_nil print_front
work_at Place.testing l =
    if l.running then record l { worker = Place.waiting } else record l { worker = Place.exited }
work_at Place.waiting l =
    if not (is_nil l.logs) || not l.running then record l { worker = Place.draining } else l
work_at Place.draining l = print_front l.logs l
work_at Place.exited l = l

-- One step of `process`.
unfoldable pub work : Logger → Logger
unfolding work_at
work l = work_at l.worker l

unfoldable pub works : ℕ → Logger → Logger
unfolding work
works zero l = l
works (suc n) l = works n (work l)

-- The mutex is free.
abbrev pub is_free : Place → Bool
is_free Place.testing = true
is_free Place.waiting = true
is_free Place.draining = false
is_free Place.exited = true

-- The states that an interleaving of the threads reaches, with the lines that were pushed, oldest first.
-- Nothing is pushed once the destructor runs.
pub data Reach : List Text → Logger → Type 0 where
  started : Reach [] new_logger
  pushed :
      {ms : List Text} {l : Logger} (m : Text)
      → Reach ms l
      → is_free l.worker ≡ true
      → l.running ≡ true
      → Reach (ms ++ (m ∷ [])) (push_log m l)
  stopped : {ms : List Text} {l : Logger} → Reach ms l → is_free l.worker ≡ true → Reach ms (stop l)
  worked : {ms : List Text} {l : Logger} → Reach ms l → Reach ms (work l)
