-- ===== src/Http/LimiterBound.antt =====
-- How many requests of one address the limiter lets through, between two evictions.
use mathlib.Core.Path.{subst}
use native.Mathlib.Nat.{le-div_iff_mul-le, div-mul-le_self}
use authpilot.Common.{
  ℕ, suc, ◌+◌, ◌-◌, ◌/◌, ◌≤◌, ◌<◌, String, ◌≡◌, refl, sym, ap, ◌∙◌, Bool, true, false, ◌&&◌, Option,
  none, some, List, [], ◌∷◌, arith, ◌==◌, eq_iff, if◌then◌else◌, Bool-cases, inl, inr, ltb, eqb,
}
use authpilot.Common.GoMap.{lookup, lookup-insert}
use authpilot.Http.Limiter.{Bucket, RateLimiter, refreshed, take, allow_with_info, new_rate_limiter}

-- the requests of `ip` that get through, of requests each at its time from its address
unfoldable pub passed : String → RateLimiter → List (ℕ × String) → ℕ
passed ip rl [] = 0
passed ip rl ((now, from) ∷ later) =
    let (rl', answer) = allow_with_info now rl from in
    let rest = passed ip rl' later in if (from == ip) && answer.allowed then suc rest else rest

-- the times do not go back, and lie between `start` and `end`
abbrev pub IsTimed : ℕ → ℕ → List (ℕ × String) → Type 0
IsTimed start end [] = start ≤ end
IsTimed start end ((now, from) ∷ later) = (start ≤ now) × IsTimed now end later

div-add_le : (a b r : ℕ) → 0 < r → a / r + b / r ≤ (a + b) / r
div-add_le a b r pos =
    (le-div_iff_mul-le pos).1 (omega (arith, div-mul-le_self a r, div-mul-le_self b r))

div_mono : (a b r : ℕ) → 0 < r → a ≤ b → a / r ≤ b / r
div_mono a b r pos h = (le-div_iff_mul-le pos).1 (omega (arith, div-mul-le_self a r))

IsTimed-le : (start end : ℕ) (rs : List (ℕ × String)) → IsTimed start end rs → start ≤ end
IsTimed-le start end [] h = h
IsTimed-le start end ((now, from) ∷ rs) h = omega (arith, h.0, IsTimed-le now end rs h.1)

abbrev one_if : Bool → ℕ
one_if b = if b then 1 else 0

-- what a bucket may still let through until `end`
abbrev budget : ℕ → ℕ → Bucket → ℕ
budget refill end b = b.tokens + (end - b.last_seen) / refill

-- a request costs what it lets through
take-budget :
    (limit refill now end : ℕ) (b : Bucket)
    → 0 < refill
    → b.last_seen ≤ now
    → now ≤ end
    → let (b', answer) = take limit refill now (some b) in
      (one_if answer.allowed + budget refill end b' ≤ budget refill end b) × (b'.last_seen ≤ now)
unfolding take refreshed
take-budget limit refill now end b pos seen ends =
    let gained = (now - b.last_seen) / refill in
    let split : (now - b.last_seen) / refill + (end - now) / refill ≤ (end - b.last_seen) / refill =
      omega (
        arith,
        div-add_le (now - b.last_seen) (end - now) refill pos,
        div_mono (now - b.last_seen + (end - now)) (end - b.last_seen) refill pos
            (omega (arith, seen, ends)),
      ) in
    elim (Bool-cases (ltb 0 gained)) [
      | inl more ↦ rw more (ground arith)
      | inr same ↦ rw same (ground arith)
    ]

spend :
    (allowed : Bool) (rest left before : ℕ)
    → one_if allowed + left ≤ before
    → rest ≤ left
    → (if allowed then suc rest else rest) ≤ before
spend true rest left before cost h = omega arith
spend false rest left before cost h = omega arith

module _ (ip : String) (end : ℕ) where
  -- the bucket of the address after a request of `from`
  bucket-after :
      (rl : RateLimiter) (now : ℕ) (from : String)
      → lookup ip (allow_with_info now rl from).0.buckets ≡ (
          if from == ip
          then some (take rl.limit rl.refill now (lookup from rl.buckets)).0
          else lookup ip rl.buckets)
  unfolding allow_with_info
  bucket-after rl now from = lookup-insert from ip _ rl.buckets

  -- what a request of the address itself is made of
  own_bucket :
      (rl : RateLimiter) (now : ℕ) (from : String) (o : Option Bucket)
      → (from == ip) ≡ true
      → lookup ip rl.buckets ≡ o
      → lookup from rl.buckets ≡ o
  own_bucket rl now from o hit e = ap (λ x. lookup x rl.buckets) ((eq_iff from ip).0 hit) ∙ e

  passed-seen :
      (rl : RateLimiter) (b : Bucket) (start : ℕ) (rs : List (ℕ × String))
      → 0 < rl.refill
      → lookup ip rl.buckets ≡ some b
      → b.last_seen ≤ start
      → IsTimed start end rs
      → passed ip rl rs ≤ budget rl.refill end b
  unfolding passed allow_with_info
  passed-seen rl b start [] pos e seen h = omega arith
  passed-seen rl b start ((now, from) ∷ rs) pos e seen h =
      let rl' = (allow_with_info now rl from).0 in
      let ends = IsTimed-le now end rs h.1 in
      elim (Bool-cases (from == ip)) [
        | inr miss ↦ rw miss (
            passed-seen rl' b now rs pos (bucket-after rl now from ∙ rw miss e)
              (omega (arith, seen, h.0)) h.1)
        | inl hit ↦
            let here = own_bucket rl now from (some b) hit e in
            let b' = (take rl.limit rl.refill now (some b)).0 in
            let (cost, seen') =
              take-budget rl.limit rl.refill now end b pos (omega (arith, seen, h.0)) ends in
            let at : lookup ip rl'.buckets ≡ some b' =
              bucket-after rl now from
              ∙ rw hit (ap (λ o. some (take rl.limit rl.refill now o).0) here) in
            let rest = passed-seen rl' b' now rs pos at seen' h.1 in
            let cost' =
              subst
                (λ o.
                  one_if (take rl.limit rl.refill now o).1.allowed + budget rl.refill end b'
                  ≤ budget rl.refill end b)
                (sym here) cost in
            rw hit (spend _ (passed ip rl' rs) _ _ cost' rest)
      ]

  passed-unseen :
      (rl : RateLimiter) (start : ℕ) (rs : List (ℕ × String))
      → 0 < rl.refill
      → 0 < rl.limit
      → lookup ip rl.buckets ≡ none
      → IsTimed start end rs
      → passed ip rl rs ≤ rl.limit + (end - start) / rl.refill
  unfolding passed allow_with_info take
  passed-unseen rl start [] pos some_limit e h = omega arith
  passed-unseen rl start ((now, from) ∷ rs) pos some_limit e h =
      let rl' = (allow_with_info now rl from).0 in
      let shorter = div_mono (end - now) (end - start) rl.refill pos (omega (arith, h.0)) in
      elim (Bool-cases (from == ip)) [
        | inr miss ↦
            let rest =
              passed-unseen rl' now rs pos some_limit (bucket-after rl now from ∙ rw miss e) h.1 in
            rw miss (omega (arith, rest, shorter))
        | inl hit ↦
            let here = own_bucket rl now from none hit e in
            let b' : Bucket = record { tokens = rl.limit - 1; last_seen = now } in
            let at : lookup ip rl'.buckets ≡ some b' =
              bucket-after rl now from
              ∙ rw hit (ap (λ o. some (take rl.limit rl.refill now o).0) here) in
            let rest = passed-seen rl' b' now rs pos at (omega arith) h.1 in
            let cost =
              subst
                (λ o.
                  one_if (take rl.limit rl.refill now o).1.allowed + budget rl.refill end b'
                  ≤ rl.limit + (end - start) / rl.refill)
                (sym here) (omega (arith, shorter, some_limit)) in
            rw hit (spend _ (passed ip rl' rs) _ _ cost rest)
      ]

-- A new limiter of `limit` requests in a window lets through, of the requests of one address between
-- the times `start` and `end`, at most `limit` and one more for each full refill interval, whatever
-- other addresses ask for in between, if the interval is not zero and no bucket is evicted meanwhile.
pub passed-bounded :
    (limit window start end : ℕ) (ip : String) (rl : RateLimiter) (rs : List (ℕ × String))
    → new_rate_limiter limit window ≡ some rl
    → 0 < window / limit
    → IsTimed start end rs
    → passed ip rl rs ≤ limit + (end - start) / (window / limit)
unfolding new_rate_limiter lookup
passed-bounded limit window start end ip rl rs made pos h = elim (Bool-cases (eqb limit 0)) [
  | inl nothing ↦ cc (rw nothing at made)
  | inr something ↦
      let same : record { buckets = []; limit = limit; refill = window / limit } ≡ rl =
        cc (rw something at made) in
      subst (λ (x : RateLimiter). passed ip x rs ≤ limit + (end - start) / (window / limit)) same
        (passed-unseen ip end (record { buckets = []; limit = limit; refill = window / limit })
          start rs pos (ground arith) refl h)
]
