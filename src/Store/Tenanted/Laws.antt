-- ===== src/Store/Tenanted/Laws.antt =====
-- If the shared store keeps the promise of the interface, then so does the store of each tenant: it
-- is the part of the shared map that carries the tenant's prefix.
use authpilot.Common.{
  String, ◌≡◌, refl, sym, ap, ◌∙◌, Bool, true, false, ◌&&◌, Option, none, some, List, [], ◌∷◌, ◌==◌,
  if◌then◌else◌, Bool-cases, inl, inr, All, Has,
}
use authpilot.Store.{Err, not_found, Result, ok, err, found, map_result, is_some, CrudStore, IsCrud}
use authpilot.Store.Tenanted.{
  Entity, add_prefix, has_prefix, strip_prefix, stripped, prefixed, create, get_by_id, own, list,
  update, delete, crud, has_prefix-add_prefix, strip_prefix-add_prefix, add_prefix-strip_prefix,
  add_prefix-==,
}

module _ {S A : Type 0} (entity : Entity A) (inner : CrudStore S A) (t : String)
    (view : S → String → Option A) (IsValid : S → Type 0)
    (laws : IsCrud entity.id inner view IsValid) where
  abbrev strip : A → A
  strip = stripped entity inner t

  abbrev prefix : A → A
  prefix = prefixed entity inner t

  abbrev pub strip_option : Option A → Option A
  strip_option none = none
  strip_option (some a) = some (strip a)

  -- what the tenant sees under a key
  abbrev pub tenant_view : S → String → Option A
  tenant_view s k = strip_option (view s (add_prefix t k))

  prefix-id : (a : A) → entity.id (prefix a) ≡ add_prefix t (entity.id a)
  prefix-id a = entity.id-with_id a _

  strip-prefix : (a : A) → strip (prefix a) ≡ a
  strip-prefix a =
      ap (λ x. entity.with_id (prefix a) (strip_prefix t x)) (prefix-id a)
      ∙ entity.with_id-with_id a _ _
      ∙ ap (entity.with_id a) (strip_prefix-add_prefix t (entity.id a))
      ∙ entity.with_id-id a

  map_result-found : (o : Option A) → map_result strip (found o) ≡ found (strip_option o)
  map_result-found none = refl
  map_result-found (some a) = refl

  is_some-strip_option : (o : Option A) → is_some (strip_option o) ≡ is_some o
  is_some-strip_option none = refl
  is_some-strip_option (some a) = refl

  strip_option-if :
      (b : Bool) (o p : Option A)
      → strip_option (if b then o else p) ≡ (if b then strip_option o else strip_option p)
  strip_option-if true o p = refl
  strip_option-if false o p = refl

  -- the entry that a write of `a` leaves under the key `k`
  written :
      (a : A) (k : String) (b : Bool) (o : Option A)
      → strip_option (if b && (entity.id (prefix a) == add_prefix t k) then some (prefix a) else o)
        ≡ (if b && (entity.id a == k) then some a else strip_option o)
  written a k b o = rw (prefix-id a, add_prefix-==, strip_option-if, strip-prefix) refl

  get_view : (s : S) (k : String) → get_by_id entity inner t s k ≡ found (tenant_view s k)
  unfolding get_by_id
  get_view s k = ap (map_result strip) (laws.get_view s (add_prefix t k)) ∙ map_result-found _

  map_result-ok :
      (r : Result A) (b : A) → map_result strip r ≡ ok b → (c : A) × (r ≡ ok c) × (strip c ≡ b)
  map_result-ok (ok c) b h = (c, refl, cc)
  map_result-ok (err e) b h = cc

  map_result-err : (r : Result A) (e : Err) → map_result strip r ≡ err e → r ≡ err e
  map_result-err (ok c) e h = cc
  map_result-err (err x) e h = cc

  create_ok :
      (s : S) (a b : A)
      → (create entity inner t s a).1 ≡ ok b
      → (b ≡ a)
        × ((k : String)
            → tenant_view (create entity inner t s a).0 k
              ≡ (if entity.id a == k then some a else tenant_view s k))
  unfolding create
  create_ok s a b h =
      let (c, done, same) = map_result-ok (inner.create s (prefix a)).1 b h in
      let (as_given, views) = laws.create_ok s (prefix a) c done in
      (
        sym same ∙ ap strip as_given ∙ strip-prefix a,
        λ k. ap strip_option (views (add_prefix t k)) ∙ written a k true (view s (add_prefix t k)),
      )

  create_err :
      (s : S) (a : A) (e : Err)
      → (create entity inner t s a).1 ≡ err e
      → (create entity inner t s a).0 ≡ s
  unfolding create
  create_err s a e h = laws.create_err s (prefix a) e (map_result-err _ e h)

  map_result-if :
      (b : Bool) (a : A)
      → map_result strip (if b then ok (prefix a) else err not_found)
        ≡ (if b then ok a else err not_found)
  map_result-if true a = ap ok (strip-prefix a)
  map_result-if false a = refl

  update_result :
      (s : S) (a : A)
      → (update entity inner t s a).1
        ≡ (if is_some (tenant_view s (entity.id a)) then ok a else err not_found)
  unfolding update
  update_result s a =
      ap (map_result strip) (laws.update_result s (prefix a))
      ∙ rw (is_some-strip_option, prefix-id)
          (map_result-if (is_some (view s (add_prefix t (entity.id a)))) a)

  update_view :
      (s : S) (a : A) (k : String)
      → tenant_view (update entity inner t s a).0 k ≡ (
          if is_some (tenant_view s (entity.id a)) && (entity.id a == k)
          then some a
          else tenant_view s k)
  unfolding update
  update_view s a k =
      ap strip_option (laws.update_view s (prefix a) (add_prefix t k))
      ∙ written a k (is_some (view s (entity.id (prefix a)))) (view s (add_prefix t k))
      ∙ rw (prefix-id, is_some-strip_option) refl

  delete_result :
      (s : S) (k : String)
      → (delete entity inner t s k).1 ≡ (if is_some (tenant_view s k) then none else some not_found)
  unfolding delete
  delete_result s k = laws.delete_result s (add_prefix t k) ∙ rw is_some-strip_option refl

  delete_view :
      (s : S) (k j : String)
      → tenant_view (delete entity inner t s k).0 j ≡ (if k == j then none else tenant_view s j)
  unfolding delete
  delete_view s k j =
      ap strip_option (laws.delete_view s (add_prefix t k) (add_prefix t j))
      ∙ rw (add_prefix-==, strip_option-if) refl

  strip_option-some :
      (o : Option A) (b : A) → strip_option o ≡ some b → (a : A) × (o ≡ some a) × (strip a ≡ b)
  strip_option-some none b h = cc
  strip_option-some (some a) b h = (a, refl, cc)

  view_key : (s : S) (k : String) (a : A) → IsValid s → tenant_view s k ≡ some a → entity.id a ≡ k
  view_key s k b v h =
      let (a, stored, same) = strip_option-some _ b h in
      ap entity.id (sym same)
      ∙ entity.id-with_id a _
      ∙ ap (strip_prefix t) (laws.view_key s _ a v stored)
      ∙ strip_prefix-add_prefix t k

  own_sound :
      (s : S) (l : List A)
      → All (λ a. view s (entity.id a) ≡ some a) l
      → All (λ a. tenant_view s (entity.id a) ≡ some a) (own entity inner t l)
  unfolding own
  own_sound s [] h = tt
  own_sound s (a ∷ l) h = elim (Bool-cases (has_prefix t (entity.id a))) [
    | inl mine ↦
        let back : add_prefix t (strip_prefix t (entity.id a)) ≡ entity.id a =
          add_prefix-strip_prefix t (entity.id a) mine in
        rw mine (rw (entity.id-with_id, back, h.0) refl, own_sound s l h.1)
    | inr other ↦ rw other (own_sound s l h.1)
  ]

  own_complete :
      (l : List A) (a : A)
      → has_prefix t (entity.id a) ≡ true
      → Has a l
      → Has (strip a) (own entity inner t l)
  unfolding own
  own_complete [] a p h = elim h [ ]
  own_complete (x ∷ l) a p (inl e) = rw (e, p) (inl refl)
  own_complete (x ∷ l) a p (inr h) = elim (Bool-cases (has_prefix t (entity.id x))) [
    | inl mine ↦ rw mine (inr (own_complete l a p h))
    | inr other ↦ rw other (own_complete l a p h)
  ]

  map_own-ok :
      (r : Result (List A)) (l : List A)
      → map_result (own entity inner t) r ≡ ok l
      → (all : List A) × (r ≡ ok all) × (own entity inner t all ≡ l)
  map_own-ok (ok all) l h = (all, refl, cc)
  map_own-ok (err e) l h = cc

  list_sound :
      (s : S) (l : List A)
      → IsValid s
      → list entity inner t s ≡ ok l
      → All (λ a. tenant_view s (entity.id a) ≡ some a) l
  unfolding list
  list_sound s l v h =
      let (all, given, same) = map_own-ok (inner.list s) l h in
      rw (← same) (own_sound s all (laws.list_sound s all v given))

  list_complete :
      (s : S) (l : List A) (k : String) (b : A)
      → IsValid s
      → tenant_view s k ≡ some b
      → list entity inner t s ≡ ok l
      → Has b l
  unfolding list
  list_complete s l k b v seen h =
      let (all, given, same) = map_own-ok (inner.list s) l h in
      let (a, stored, stripped_to) = strip_option-some _ b seen in
      let mine : has_prefix t (entity.id a) ≡ true =
        rw (laws.view_key s _ a v stored) (has_prefix-add_prefix t k) in
      rw (← same, ← stripped_to)
        (own_complete all a mine (laws.list_complete s all _ a v stored given))

  -- The store of a tenant keeps every promise of the interface, if the shared store does.
  pub tenanted-IsCrud : IsCrud entity.id (crud entity inner t) tenant_view IsValid
  unfolding create update delete
  tenanted-IsCrud = record {
    get_view = get_view;
    create_ok = create_ok;
    create_err = create_err;
    update_result = update_result;
    update_view = update_view;
    delete_result = delete_result;
    delete_view = delete_view;
    create-IsValid = λ s a v. laws.create-IsValid s (prefix a) v;
    update-IsValid = λ s a v. laws.update-IsValid s (prefix a) v;
    delete-IsValid = λ s k v. laws.delete-IsValid s (add_prefix t k) v;
    view_key = view_key;
    list_sound = list_sound;
    list_complete = list_complete;
  }
