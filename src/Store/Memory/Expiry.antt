-- ===== src/Store/Memory/Expiry.antt =====
-- server/internal/store/memory/flows.go: what `DeleteExpired` removes.
use authpilot.Common.{
  ℕ, ◌+◌, String, ◌≡◌, refl, Bool, [], ◌∷◌, arith, Bool-cases, inl, inr, count_if, length,
}
use authpilot.Common.GoMap.{GoMap, lookup, values, drop_if, lookup-drop_if, unless_dropped}
use authpilot.Store.{ok}
use authpilot.Store.Memory.Flows.{FlowStore, is_expired, delete_expired}
use authpilot.Store.Memory.Redeem.{IsValid}

-- what is dropped and what is kept make up the map
count_if-drop_if :
    {V : Type 0} (drop : V → Bool) (m : GoMap V)
    → count_if drop (values m) + length (drop_if drop m) ≡ length m
unfolding values drop_if
count_if-drop_if drop [] = refl
count_if-drop_if drop ((k, v) ∷ m) = elim (Bool-cases (drop v)) [
  | inl gone ↦ rw gone (omega (arith, count_if-drop_if drop m))
  | inr kept ↦ rw kept (omega (arith, count_if-drop_if drop m))
]

-- In a well-formed store of flows the removal of expired flows leaves under each key the flow that was
-- there, unless it expired before the given time; the number that is returned and the number of the
-- flows that are left add up to the number there was.
pub delete_expired_lem :
    (s : FlowStore) (now : ℕ)
    → IsValid s
    → let (t, result) = delete_expired s now in
      ((k : String) → lookup k t.flows ≡ unless_dropped (is_expired now) (lookup k s.flows))
      × (removed : ℕ) × (result ≡ ok removed)
      × (removed + length t.flows ≡ length s.flows)
unfolding delete_expired
delete_expired_lem s now v = (
  λ k. lookup-drop_if (is_expired now) k s.flows v.unique,
  count_if (is_expired now) (values s.flows),
  refl,
  count_if-drop_if (is_expired now) s.flows,
)
