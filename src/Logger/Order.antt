-- ===== src/Logger/Order.antt =====
-- Proofs on the order of the lines.
use dns_plus_plus.Base.{
  ℕ, zero, suc, ◌≡◌, refl, sym, ap, ◌∙◌, not, ◌||◌, List, [], ◌∷◌, ◌++◌, append_assoc, if-cases,
  Text,
}
use dns_plus_plus.Logger.Steps.{
  Place, Logger, push_log, stop, is_nil, print_front, work_at, work, works, Reach, started, pushed,
  stopped, worked,
}

-- The lines printed and the lines that wait, in their order.
abbrev pub lines : Logger → List Text
lines l = l.printed ++ l.logs

lines-print_front :
    (rest : List Text) (l : Logger) → l.logs ≡ rest → lines (print_front rest l) ≡ lines l
unfolding print_front
lines-print_front [] l e = refl
lines-print_front (line ∷ rest) l e =
    append_assoc l.printed (line ∷ []) rest ∙ ap (◌++◌ l.printed) (sym e)

lines-work_at : (p : Place) (l : Logger) → lines (work_at p l) ≡ lines l
unfolding work_at
lines-work_at Place.testing l = if-cases (λ t. lines t ≡ lines l) l.running refl refl
lines-work_at Place.waiting l =
    if-cases (λ t. lines t ≡ lines l) (not (is_nil l.logs) || not l.running) refl refl
lines-work_at Place.draining l = lines-print_front l.logs l refl
lines-work_at Place.exited l = refl

pub lines-work : (l : Logger) → lines (work l) ≡ lines l
unfolding work
lines-work l = lines-work_at l.worker l

-- In every state that an interleaving of the owner and the worker of a logger reaches, the lines
-- printed and then the lines that wait are the lines pushed, in their order: none is lost, doubled
-- or reordered.
pub lines-Reach : {ms : List Text} {l : Logger} → Reach ms l → lines l ≡ ms
unfolding push_log stop
lines-Reach started = refl
lines-Reach (pushed {l} m r free on) =
    sym (append_assoc l.printed l.logs (m ∷ [])) ∙ ap (λ t. t ++ (m ∷ [])) (lines-Reach r)
lines-Reach (stopped r free) = lines-Reach r
lines-Reach (worked {l} r) = lines-work l ∙ lines-Reach r

pub works-Reach : {ms : List Text} {l : Logger} (n : ℕ) → Reach ms l → Reach ms (works n l)
unfolding works
works-Reach zero r = r
works-Reach (suc n) r = works-Reach n (worked r)
