-- ===== src/Logger/Runs.antt =====
-- A run of the logger, and the theorems at concrete inputs.
use dns_plus_plus.Base.{◌+◌, ◌≡◌, refl, true, false, [], ◌∷◌, length, Text}
use dns_plus_plus.Logger.Steps.{
  Place, Logger, new_logger, push_log, stop, is_nil, print_front, work_at, work, works, Reach,
  started, pushed, stopped, worked,
}
use dns_plus_plus.Logger.Order.{lines, lines-Reach}
use dns_plus_plus.Logger.Drain.{IsPrinted, Reach-IsPrinted}
use dns_plus_plus.Logger.Lifetime.{join_lem, push_lost, printed_at, left_at}

abbrev first_line : Text
first_line = b'h' ∷ b'i' ∷ []

abbrev second_line : Text
second_line = b'o' ∷ b'k' ∷ []

-- A line is pushed, the worker enters the inner loop and prints it, leaves, waits, and a second line is
-- pushed.
abbrev printed_once : Logger
printed_once = works 5 (push_log first_line new_logger)

abbrev two_lines : Logger
two_lines = push_log second_line printed_once

two_lines-Reach : Reach (first_line ∷ second_line ∷ []) two_lines
unfolding push_log works work work_at print_front is_nil
two_lines-Reach =
    pushed second_line
      (worked (worked (worked (worked (worked (pushed first_line started refl refl)))))) refl refl

two_lines_printed : two_lines.printed ≡ first_line ∷ []
unfolding push_log works work work_at print_front is_nil
two_lines_printed = refl

lines-Reach_example : lines two_lines ≡ first_line ∷ second_line ∷ []
lines-Reach_example = lines-Reach two_lines-Reach

two_lines_running : two_lines.running ≡ true
unfolding push_log works work work_at print_front is_nil
two_lines_running = refl

Reach-IsPrinted_example :
    IsPrinted (length two_lines.logs + 3) two_lines (first_line ∷ second_line ∷ [])
Reach-IsPrinted_example = Reach-IsPrinted two_lines-Reach two_lines_running

-- The destructor runs while the worker waits with a line there.
abbrev destroyed : Logger
destroyed = stop two_lines

destroyed-Reach : Reach (first_line ∷ second_line ∷ []) destroyed
unfolding push_log works work work_at print_front is_nil
destroyed-Reach = stopped two_lines-Reach refl

destroyed_stopped : destroyed.running ≡ false
unfolding stop
destroyed_stopped = refl

join_lem_example :
    ((works (length destroyed.logs + 3) destroyed).worker ≡ Place.exited)
    × ((works (length destroyed.logs + 3) destroyed).printed
        ≡ printed_at destroyed.worker destroyed.printed destroyed.logs)
    × ((works (length destroyed.logs + 3) destroyed).logs ≡ left_at destroyed.worker destroyed.logs)
join_lem_example = join_lem destroyed-Reach destroyed_stopped

push_lost_example :
    (l : Logger) × Reach (first_line ∷ second_line ∷ []) l
    × (l.worker ≡ Place.exited)
    × (l.printed ≡ first_line ∷ [])
push_lost_example = push_lost (first_line ∷ []) second_line
