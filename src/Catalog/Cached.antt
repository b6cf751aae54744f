-- ===== src/Catalog/Cached.antt =====
-- The cache of reference data: apps/api/src/ozzb2b_api/clients/cache.py. Redis and the lock of a key are
-- arguments over a state of any type: a call may fail, and while a task waits for the lock others run.
use ozzb2b.Shared.{
  ℕ, ◌≡◌, refl, sym, ap, subst, ◌⊎◌, inl, inr, Option, none, some, List, [], ◌∷◌, map, Text, max,
  Exec, Result, ok, err, Result-cases, Option-cases,
}
use ozzb2b.Errors.{Error}

pub record Redis (N : Type 0) : Type 0 where
  pub get : Text → Exec N Error (Option Text)
  pub set : Text → Text → ℕ → Exec N Error (Unit {0})
  -- the wait for `_lock_for(key)`
  pub lock : Text → N → N

-- `decode(json.loads(cached))` and `json.dumps(encode(value))`, which may raise
pub record Codec (T : Type 0) : Type 0 where
  pub decode : Text → Option T
  pub encode : T → Option Text

abbrev pub decoded : {T : Type 0} → Codec T → Option Text → Option T
decoded codec none = none
decoded codec (some text) = codec.decode text

-- a get that fails is a miss
abbrev pub or_miss : Result Error (Option Text) → Option Text
or_miss (ok cached) = cached
or_miss (err e) = none

module _ {N T : Type 0} (redis : Redis N) (codec : Codec T) (key : Text) (ttl_seconds : ℕ)
    (loader : Exec N Error T) where
  -- a value that cannot be stored is answered all the same
  unfoldable pub store_value : Result Error T → N → Result Error T × N
  store_value (err e) s = (err e, s)
  store_value (ok v) s = elim (codec.encode v) [
    | none ↦ (ok v, s)
    | some text ↦ (ok v, (redis.set key text (max 1 ttl_seconds) s).1)
  ]

  unfoldable pub load_and_store : Exec N Error T
  load_and_store s = store_value (loader s).0 (loader s).1

  -- the block under the lock, which reads once more
  unfoldable pub under_lock : Exec N Error T
  under_lock s =
      let read = redis.get key (redis.lock key s) in
      elim (decoded codec (or_miss read.0)) [
        | some v ↦ (ok v, read.1)
        | none ↦ load_and_store read.1
      ]

  unfoldable pub get_or_set : Exec N Error T
  get_or_set s =
      let read = redis.get key s in
      elim read.0 [
        | err e ↦ loader read.1
        | ok cached ↦ (elim (decoded codec cached) [
          | some v ↦ (ok v, read.1)
          | none ↦ under_lock read.1
        ])
      ]

-- requests one after another, each with its key
unfoldable pub answers :
    {N T : Type 0}
    → Redis N
    → Codec T
    → ℕ
    → (Text → Exec N Error T)
    → List Text
    → N
    → List (Result Error T)
answers redis codec ttl loader [] s = []
answers redis codec ttl loader (key ∷ keys) s =
    (get_or_set redis codec key ttl (loader key) s).0
    ∷ answers redis codec ttl loader keys (get_or_set redis codec key ttl (loader key) s).1

-- What the code relies on. `holds s k text` says that Redis may answer `text` under the key `k`: what a
-- get answers was stored, calls and the loader add nothing but what a set stores, and other tasks, which
-- run while one waits, store only the encoded value of the key.
pub record IsCache {N T : Type 0} (redis : Redis N) (codec : Codec T)
    (loader : Text → Exec N Error T) (value : Text → T) (holds : N → Text → Text → Type 0)
    : Type 0 where
  pub get-holds : (k text : Text) (s : N) → (redis.get k s).0 ≡ ok (some text) → holds s k text
  pub holds-get : (k j text : Text) (s : N) → holds (redis.get k s).1 j text → holds s j text
  pub holds-set :
      (k stored j text : Text) (ttl : ℕ) (s : N)
      → holds (redis.set k stored ttl s).1 j text
      → holds s j text ⊎ ((j ≡ k) × (text ≡ stored))
  pub holds-lock :
      (k j text : Text) (s : N)
      → holds (redis.lock k s) j text
      → holds s j text ⊎ (codec.encode (value j) ≡ some text)
  pub holds-loader : (k j text : Text) (s : N) → holds (loader k s).1 j text → holds s j text
  pub loader-value : (k : Text) (s : N) → (loader k s).0 ≡ ok (value k)
  pub decode-encode :
      (v : T) (text : Text) → codec.encode v ≡ some text → codec.decode text ≡ some v

module _ {N T : Type 0} (redis : Redis N) (codec : Codec T) (loader : Text → Exec N Error T)
    (value : Text → T) (holds : N → Text → Text → Type 0)
    (h : IsCache redis codec loader value holds) (ttl : ℕ) where
  -- whatever Redis may answer is right
  abbrev pub IsRight : N → Type 0
  IsRight s = (k text : Text) → holds s k text → codec.decode text ≡ some (value k)

  get-IsRight : (k : Text) (s : N) → IsRight s → IsRight (redis.get k s).1
  get-IsRight k s r j text there = r j text (h.holds-get k j text s there)

  lock-IsRight : (k : Text) (s : N) → IsRight s → IsRight (redis.lock k s)
  lock-IsRight k s r j text there = elim (h.holds-lock k j text s there) [
    | inl old ↦ r j text old
    | inr stored ↦ h.decode-encode (value j) text stored
  ]

  loader-IsRight : (k : Text) (s : N) → IsRight s → IsRight (loader k s).1
  loader-IsRight k s r j text there = r j text (h.holds-loader k j text s there)

  set-IsRight :
      (k text : Text) (s : N)
      → codec.decode text ≡ some (value k)
      → IsRight s
      → IsRight (redis.set k text (max 1 ttl) s).1
  set-IsRight k text s e r j t there = elim (h.holds-set k text j t (max 1 ttl) s there) [
    | inl old ↦ r j t old
    | inr (at_key, stored) ↦ rw (at_key, stored) e
  ]

  -- the answer, and that the cache stays right
  abbrev pub Answers : Text → Result Error T × N → Type 0
  Answers k out = (out.0 ≡ ok (value k)) × IsRight out.1

  loader-Answers : (k : Text) (s : N) → IsRight s → Answers k (loader k s)
  loader-Answers k s r = (h.loader-value k s, loader-IsRight k s r)

  store_value-Answers :
      (k : Text) (s : N)
      → IsRight s
      → Answers k (store_value redis codec k ttl (loader k) (ok (value k)) s)
  unfolding store_value
  store_value-Answers k s r = elim (Option-cases (codec.encode (value k))) [
    | inl e ↦ rw (e, store_value) (refl, r)
    | inr (text, e) ↦
        rw (e, store_value) (refl, set-IsRight k text s (h.decode-encode (value k) text e) r)
  ]

  load_and_store-Answers :
      (k : Text) (s : N) → IsRight s → Answers k (load_and_store redis codec k ttl (loader k) s)
  unfolding load_and_store
  load_and_store-Answers k s r =
      subst (λ o. Answers k (store_value redis codec k ttl (loader k) o (loader k s).1))
        (sym (h.loader-value k s)) (store_value-Answers k (loader k s).1 (loader-IsRight k s r))

  -- what is read and decodes is the value
  decoded-value :
      (k : Text) (o : Option Text) (v : T)
      → ((text : Text) → o ≡ some text → codec.decode text ≡ some (value k))
      → decoded codec o ≡ some v
      → v ≡ value k
  decoded-value k none v right e = cc
  decoded-value k (some text) v right e = cc (right text refl)

  got-value :
      (k : Text) (s : N) (v : T)
      → IsRight s
      → decoded codec (or_miss (redis.get k s).0) ≡ some v
      → v ≡ value k
  got-value k s v r e =
      decoded-value k (or_miss (redis.get k s).0) v
        (λ text got. r k text (h.get-holds k text s (got_ok (redis.get k s).0 text got))) e
    where
      got_ok :
          (o : Result Error (Option Text)) (text : Text)
          → or_miss o ≡ some text
          → o ≡ ok (some text)
      got_ok (ok c) text got = ap ok got
      got_ok (err x) text got = absurd cc

  under_lock-Answers :
      (k : Text) (s : N) → IsRight s → Answers k (under_lock redis codec k ttl (loader k) s)
  unfolding under_lock
  under_lock-Answers k s r =
      elim (Option-cases (decoded codec (or_miss (redis.get k (redis.lock k s)).0))) [
        | inl e ↦
            rw (e, under_lock) (load_and_store-Answers k _ (get-IsRight k _ (lock-IsRight k s r)))
        | inr (v, e) ↦
            rw (e, under_lock)
              (
                ap ok (got-value k (redis.lock k s) v (lock-IsRight k s r) e),
                get-IsRight k _ (lock-IsRight k s r),
              )
      ]

  pub get_or_set-Answers :
      (k : Text) (s : N) → IsRight s → Answers k (get_or_set redis codec k ttl (loader k) s)
  unfolding get_or_set
  get_or_set-Answers k s r = elim (Result-cases (redis.get k s).0) [
    | inr (x, failed) ↦ rw (failed, get_or_set) (loader-Answers k _ (get-IsRight k s r))
    | inl (cached, got) ↦ (elim (Option-cases (decoded codec cached)) [
      | inl e ↦ rw (got, get_or_set, e) (under_lock-Answers k _ (get-IsRight k s r))
      | inr (v, e) ↦
          rw (got, get_or_set, e) (ap ok (got-value k s v r (rw got e)), get-IsRight k s r)
    ])
  ]

  -- Each of a series of requests through the cache answers the value that the loader of its key gives,
  -- as without a cache, from any state in which Redis holds right values only: whether calls of Redis
  -- fail, entries vanish, values do not decode, or other tasks fill the cache during a wait. This holds
  -- where a key determines the value, and decoding takes back encoding.
  pub answers-eq-map :
      (keys : List Text) (s : N)
      → IsRight s
      → answers redis codec ttl loader keys s ≡ map (λ k. ok (value k)) keys
  unfolding answers
  answers-eq-map [] s r = refl
  answers-eq-map (k ∷ keys) s r =
      let now = get_or_set-Answers k s r in
      cc (now.0, answers-eq-map keys (get_or_set redis codec k ttl (loader k) s).1 now.1)
