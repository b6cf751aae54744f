-- ===== src/Events/Attempts.antt =====
-- An event is published when one of three attempts succeeds.
use ozzb2b.Shared.{
  ℕ, zero, suc, ◌+◌, ◌≤◌, ◌≡◌, refl, sym, subst, inl, inr, Bool, true, List, [], ◌∷◌, Text,
  if◌then◌else◌, any, Bool-cases, arith,
}
use ozzb2b.Events.{EventEmitter, Published, attempts, emit}

module _ {N : Type 0} (xadd : Text → Text → ℕ → N → Bool × N) (emitter : EventEmitter)
    (payload : Text) where
  -- what Redis says to so many calls, one after the other
  pub replies : ℕ → N → List Bool
  replies zero n = []
  replies (suc k) n =
      (xadd emitter.stream payload emitter.maxlen n).0
      ∷ replies k (xadd emitter.stream payload emitter.maxlen n).1

  -- one counter goes up by one: that of the successes when one of the replies is one
  pub record IsCounted (rounds : ℕ) (before after : Published N) : Type 0 where
    pub ok : after.n_ok ≡ before.n_ok + (if any (λ b. b) (replies rounds before.net) then 1 else 0)
    pub error :
        after.n_error ≡ before.n_error + (if any (λ b. b) (replies rounds before.net) then 0 else 1)
    pub few : after.calls ≤ before.calls + rounds

  attempts-IsCounted :
      (rounds : ℕ) (s : Published N) → IsCounted rounds s (attempts xadd emitter rounds payload s)
  unfolding attempts replies any
  attempts-IsCounted zero s = record { ok = omega arith; error = refl; few = omega arith }
  attempts-IsCounted (suc rounds) s =
      elim (Bool-cases (xadd emitter.stream payload emitter.maxlen s.net).0) [
        | inl e ↦
            rw (e, attempts)
              (record {
                ok = rw (e, replies) refl;
                error = rw (e, replies) (omega arith);
                few = omega arith;
              })
        | inr e ↦
            let rest = attempts-IsCounted rounds (record s {
              net = (xadd emitter.stream payload emitter.maxlen s.net).1;
              calls = s.calls + 1;
            }) in
            rw (e, attempts)
              (record {
                ok = rw (e, replies) rest.ok;
                error = rw (e, replies) rest.error;
                few = omega (arith, rest.few);
              })
      ]

  -- An enabled emitter calls Redis at most three times for an event, and counts it once: as published
  -- when one of the first three calls is taken, and otherwise as an error.
  pub emit-IsCounted :
      (s : Published N) → emitter.enabled ≡ true → IsCounted 3 s (emit xadd emitter payload s)
  unfolding emit
  emit-IsCounted s on =
      subst (λ b. IsCounted 3 s (if b then attempts xadd emitter 3 payload s else s)) (sym on)
        (attempts-IsCounted 3 s)
