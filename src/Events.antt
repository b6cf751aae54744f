-- ===== src/Events.antt =====
-- The emitter of product events: apps/api/src/ozzb2b_api/clients/events.py. Redis is an argument that
-- says whether it takes an entry; the text of the entry, the pauses and the log are left out.
pub mod Attempts
pub mod Tests
use ozzb2b.Shared.{ℕ, zero, suc, ◌+◌, Bool, true, false, List, [], ◌∷◌, Text, max, if◌then◌else◌}

-- the emitter's settings
pub record EventEmitter : Type 0 where
  pub stream : Text
  pub maxlen : ℕ
  pub enabled : Bool

-- Redis, the calls of it, and the two counters of events_published_total
pub record Published (N : Type 0) : Type 0 where
  pub net : N
  pub calls : ℕ
  pub n_ok : ℕ
  pub n_error : ℕ

pub new_emitter : Text → ℕ → Bool → EventEmitter
new_emitter stream maxlen enabled = record {
  stream = stream;
  maxlen = max 1000 maxlen;
  enabled = enabled;
}

module _ {N : Type 0} (xadd : Text → Text → ℕ → N → Bool × N) (emitter : EventEmitter) where
  -- the rounds that are left of `for attempt in range(3)`
  pub attempts : ℕ → Text → Published N → Published N
  attempts zero payload s = record s { n_error = s.n_error + 1 }
  attempts (suc rounds) payload s =
      let sent = xadd emitter.stream payload emitter.maxlen s.net in
      let again = attempts rounds payload (record s { net = sent.1; calls = s.calls + 1 }) in
      if sent.0 then record s { net = sent.1; calls = s.calls + 1; n_ok = s.n_ok + 1 } else again

  pub emit : Text → Published N → Published N
  emit payload s = let tried = attempts 3 payload s in if emitter.enabled then tried else s
