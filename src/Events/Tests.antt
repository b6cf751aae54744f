-- ===== src/Events/Tests.antt =====
-- Events on a Redis that fails for some calls, and the theorem on the emitter applied there.
use ozzb2b.Shared.{ℕ, zero, suc, ◌≡◌, refl, Bool, true, false, Text, codes}
use ozzb2b.Events.{EventEmitter, Published, new_emitter, emit}

-- Redis that fails as often as its number says
abbrev xadd : Text → Text → ℕ → ℕ → Bool × ℕ
xadd stream payload maxlen zero = (true, 0)
xadd stream payload maxlen (suc failures) = (false, failures)

abbrev emitter : EventEmitter
emitter = record { stream = codes "ozzb2b:events:v1"; maxlen = 1000; enabled = true }

abbrev failing : ℕ → Published ℕ
failing n = record { net = n; calls = 0; n_ok = 0; n_error = 0 }

made : new_emitter (codes "ozzb2b:events:v1") 10 true ≡ emitter
unfolding new_emitter
made = refl

third_time :
    emit xadd emitter (codes "{}") (failing 2)
    ≡ record { net = 0; calls = 3; n_ok = 1; n_error = 0 }
unfolding emit ozzb2b.Events.attempts
third_time = refl

given_up :
    emit xadd emitter (codes "{}") (failing 5)
    ≡ record { net = 2; calls = 3; n_ok = 0; n_error = 1 }
unfolding emit ozzb2b.Events.attempts
given_up = refl
