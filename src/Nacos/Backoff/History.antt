-- ===== src/Nacos/Backoff/History.antt =====
-- The backoff window as a function of the remote calls that were counted.
use doggy_dns.Common.{
  ℕ, ◌+◌, ◌-◌, ◌^◌, ◌≤◌, ◌<◌, ◌≡◌, refl, Bool, true, false, ◌&&◌, List, [], ◌∷◌, arith, ltb, leb,
  length,
}
use doggy_dns.Nacos.Backoff.{
  FailureBackoff, new_backoff, record_failure, record_success, is_open, failure_threshold,
  failure_backoff,
}

-- What a remote call can report.
pub data Event : Type 0 where
  failed_at : ℕ → Event
  answered : Event

unfoldable pub observe : FailureBackoff → Event → FailureBackoff
observe b (failed_at now) = (record_failure b now).0
observe b answered = record_success b

-- The state after a history, its latest event first.
pub after : List Event → FailureBackoff
unfolding observe
after [] = new_backoff
after (e ∷ earlier) = observe (after earlier) e

-- How many failures came since the last answer, and when the latest of them was.
abbrev pub streak : List Event → ℕ
streak [] = 0
streak (failed_at now ∷ earlier) = streak earlier + 1
streak (answered ∷ earlier) = 0

abbrev pub any_answer : List Event → Bool
any_answer [] = false
any_answer (failed_at now ∷ earlier) = any_answer earlier
any_answer (answered ∷ earlier) = true

-- The window that a history should hold at `now`: its latest event is a failure, at least the third
-- since the last answer, not later than `now` and less than the backoff ago.
abbrev pub window : List Event → ℕ → Bool
window [] now = false
window (answered ∷ earlier) now = false
window (failed_at t ∷ earlier) now =
    leb failure_threshold (streak earlier + 1) && (leb t now && ltb (now - t) failure_backoff)

streak-le-length : (h : List Event) → streak h ≤ length h
streak-le-length [] = omega arith
streak-le-length (failed_at now ∷ h) = omega (arith, streak-le-length h)
streak-le-length (answered ∷ h) = omega arith

failures-after : (h : List Event) → length h < 2 ^ 32 → (after h).failures ≡ streak h
unfolding after observe record_failure record_success
failures-after [] p = refl
failures-after (failed_at now ∷ h) p = ground (arith, failures-after h, streak-le-length h)
failures-after (answered ∷ h) p = refl

-- After any history of fewer than 2 ^ 32 remote calls the window is open exactly when the history
-- says so, and the registry counts as confirmed exactly when it ever answered.
pub is_open-window :
    (h : List Event) (now : ℕ)
    → length h < 2 ^ 32
    → (is_open (after h) now ≡ window h now) × ((after h).confirmed ≡ any_answer h)
unfolding after observe record_failure record_success is_open
is_open-window [] now p = (refl, refl)
is_open-window (failed_at t ∷ h) now p =
    ground (arith, failures-after h, streak-le-length h, is_open-window h now)
is_open-window (answered ∷ h) now p = (refl, refl)
