-- ===== src/Store/Tenanted/Isolation.antt =====
-- What one tenant does is not seen by another.
use Prim.Native.String
use text.Mathlib.TextLemmas.{append_assoc}
use authpilot.Common.{
  String, ◌≡◌, ◌≢◌, refl, sym, ap, ◌∙◌, Bool, true, false, ◌&&◌, Option, ◌==◌, ne→==-false,
}
use authpilot.Common.Prefix.{HasNoColon, before_colon}
use authpilot.Store.{Result, ok, err, CrudStore, IsCrud}
use authpilot.Store.Tenanted.{Entity, sep, add_prefix, prefixed, create, update, delete}
use authpilot.Store.Tenanted.Laws.{tenant_view, strip_option}

-- Two tenants whose names have no colon share no key.
pub add_prefix_disjoint :
    (t u x y : String) → HasNoColon t → HasNoColon u → t ≢ u → add_prefix t x ≢ add_prefix u y
unfolding add_prefix
add_prefix_disjoint t u x y ht hu differ e =
    differ (before_colon t u x y ht hu (sym (append_assoc t sep x) ∙ e ∙ append_assoc u sep y))

module _ {S A : Type 0} (entity : Entity A) (inner : CrudStore S A) (view : S → String → Option A)
    (IsValid : S → Type 0) (laws : IsCrud entity.id inner view IsValid) where
  -- what the tenant `u` sees under the key `k`
  abbrev pub sees : String → S → String → Option A
  sees u = tenant_view entity inner u view IsValid laws

  module _ (t u : String) (ht : HasNoColon t) (hu : HasNoColon u) (differ : t ≢ u) where
    other_key : (x k : String) → (add_prefix t x == add_prefix u k) ≡ false
    other_key x k = ne→==-false _ _ (add_prefix_disjoint t u x k ht hu differ)

    written_key :
        (a : A) (k : String) → (entity.id (prefixed entity inner t a) == add_prefix u k) ≡ false
    written_key a k =
        ap (λ x. x == add_prefix u k) (entity.id-with_id a _) ∙ other_key (entity.id a) k

    and-false : (b : Bool) → (b && false) ≡ false
    and-false true = refl
    and-false false = refl

    update-sees : (s : S) (a : A) (k : String) → sees u (update entity inner t s a).0 k ≡ sees u s k
    unfolding update
    update-sees s a k = ap (strip_option entity inner u view IsValid laws) (
        laws.update_view s (prefixed entity inner t a) (add_prefix u k)
        ∙ rw (written_key a k, and-false) refl)

    delete-sees : (s : S) (x k : String) → sees u (delete entity inner t s x).0 k ≡ sees u s k
    unfolding delete
    delete-sees s x k =
        ap (strip_option entity inner u view IsValid laws)
          (laws.delete_view s (add_prefix t x) (add_prefix u k) ∙ rw (other_key x k) refl)

    create-sees_as :
        (s : S) (a : A) (k : String) (r : Result A)
        → (inner.create s (prefixed entity inner t a)).1 ≡ r
        → view (inner.create s (prefixed entity inner t a)).0 (add_prefix u k)
          ≡ view s (add_prefix u k)
    create-sees_as s a k (ok b) e =
        (laws.create_ok s _ b e).1 (add_prefix u k) ∙ rw (written_key a k) refl
    create-sees_as s a k (err x) e = ap (λ s'. view s' (add_prefix u k)) (laws.create_err s _ x e)

    create-sees : (s : S) (a : A) (k : String) → sees u (create entity inner t s a).0 k ≡ sees u s k
    unfolding create
    create-sees s a k =
        ap (strip_option entity inner u view IsValid laws) (create-sees_as s a k _ refl)

  -- Over any shared store that keeps the promise of the interface, a create, an update and a delete
  -- by the tenant `t` change nothing that another tenant `u` sees, if neither name has a colon.
  pub tenants_isolated :
      (t u : String)
      → HasNoColon t
      → HasNoColon u
      → t ≢ u
      → (s : S) (a : A) (x k : String)
      → (sees u (create entity inner t s a).0 k ≡ sees u s k)
        × (sees u (update entity inner t s a).0 k ≡ sees u s k)
        × (sees u (delete entity inner t s x).0 k ≡ sees u s k)
  tenants_isolated t u ht hu differ s a x k = (
    create-sees t u ht hu differ s a k,
    update-sees t u ht hu differ s a k,
    delete-sees t u ht hu differ s x k,
  )

-- A tenant whose name is another tenant's name with `::` and more behind it shares keys with that
-- tenant: what it calls `y` is what the other calls `x::y`.
pub tenants_collide :
    (t x y : String) → add_prefix t (add_prefix x y) ≡ add_prefix (add_prefix t x) y
unfolding add_prefix
tenants_collide t x y =
    let front = String.◌++◌ t sep in
    sym (append_assoc front (String.◌++◌ x sep) y)
    ∙ ap (λ s. String.◌++◌ s y) (sym (append_assoc front x sep))
