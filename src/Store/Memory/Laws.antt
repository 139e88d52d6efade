-- ===== src/Store/Memory/Laws.antt =====
-- A store that keeps its entries in one Go map, under their own keys, keeps the promise of the
-- interface, whatever the type of the entries. Each in-memory store is such a store.
use authpilot.Common.{
  String, ◌≡◌, refl, ap, ◌&&◌, ◌⊎◌, inl, inr, true, Option, none, some, List, arith, ◌==◌, eq_iff,
  if◌then◌else◌, All, Has, sort_by, Has-sort_by, sort_by-All,
}
use authpilot.Common.GoMap.{
  GoMap, lookup, insert, delete, values, lookup-insert, lookup-delete, HasUniqueKeys,
  insert-HasUniqueKeys, delete-HasUniqueKeys, Entries, Entries-lookup, insert-Entries,
  delete-Entries, All-values, Has-values, Entries-self, Entries-and,
}
use authpilot.Store.{Err, not_found, ok, err, found, is_some, CrudStore, IsCrud}

module _ {S A : Type 0} (key : A → String) (ops : CrudStore S A) (field : S → GoMap A) where
  -- what the methods do to the map
  pub record IsMapBacked : Type 0 where
    pub reads : (s : S) (k : String) → ops.get_by_id s k ≡ found (lookup k (field s))
    pub lists : (s : S) → ops.list s ≡ ok (sort_by key (values (field s)))
    pub creates :
        (s : S) (a : A)
        → ((e : Err) × (ops.create s a ≡ (s, err e)))
          ⊎ ((field (ops.create s a).0 ≡ insert (key a) a (field s)) × ((ops.create s a).1 ≡ ok a))
    pub updates :
        (s : S) (a : A)
        → ((lookup (key a) (field s) ≡ none) × (ops.update s a ≡ (s, err not_found)))
          ⊎ ((is_some (lookup (key a) (field s)) ≡ true)
              × (field (ops.update s a).0 ≡ insert (key a) a (field s))
              × ((ops.update s a).1 ≡ ok a))
    pub deletes :
        (s : S) (k : String)
        → ((lookup k (field s) ≡ none) × (ops.delete s k ≡ (s, some not_found)))
          ⊎ ((is_some (lookup k (field s)) ≡ true)
              × (field (ops.delete s k).0 ≡ delete k (field s))
              × ((ops.delete s k).1 ≡ none))

  -- each key once, and each entry under its own key
  pub record IsKeyed (s : S) : Type 0 where
    pub unique : HasUniqueKeys (field s)
    pub own_key : Entries (λ k a. key a ≡ k) (field s)

  abbrev view : S → String → Option A
  view s k = lookup k (field s)

module _ {S A : Type 0} (key : A → String) (ops : CrudStore S A) (field : S → GoMap A)
    (backed : IsMapBacked key ops field) where
  IsKeyed-insert :
      (s t : S) (a : A)
      → IsKeyed key ops field s
      → field t ≡ insert (key a) a (field s)
      → IsKeyed key ops field t
  IsKeyed-insert s t a h e = record {
    unique = rw e (insert-HasUniqueKeys (key a) a (field s) h.unique);
    own_key = rw e (insert-Entries _ (key a) a (field s) h.own_key refl);
  }

  IsKeyed-delete :
      (s t : S) (k : String)
      → IsKeyed key ops field s
      → field t ≡ delete k (field s)
      → IsKeyed key ops field t
  IsKeyed-delete s t k h e = record {
    unique = rw e (delete-HasUniqueKeys k (field s) h.unique);
    own_key = rw e (delete-Entries _ k (field s) h.own_key);
  }

  get_view : (s : S) (k : String) → ops.get_by_id s k ≡ found (lookup k (field s))
  get_view = backed.reads

  create_ok :
      (s : S) (a b : A)
      → (ops.create s a).1 ≡ ok b
      → (b ≡ a)
        × ((k : String)
            → lookup k (field (ops.create s a).0)
              ≡ (if key a == k then some a else lookup k (field s)))
  create_ok s a b h = elim (backed.creates s a) [
    | inl (e, same) ↦ cc (ap (λ p. p.1) same)
    | inr (written, done) ↦ (cc, λ k. rw written (lookup-insert (key a) k a (field s)))
  ]

  create_err : (s : S) (a : A) (e : Err) → (ops.create s a).1 ≡ err e → (ops.create s a).0 ≡ s
  create_err s a e h = elim (backed.creates s a) [
    | inl (e', same) ↦ ap (λ p. p.0) same
    | inr (written, done) ↦ cc
  ]

  update_result :
      (s : S) (a : A)
      → (ops.update s a).1 ≡ (if is_some (lookup (key a) (field s)) then ok a else err not_found)
  update_result s a = elim (backed.updates s a) [
    | inl (missing, same) ↦ rw (missing, same) refl
    | inr (there, written, done) ↦ rw (there, done) refl
  ]

  update_view :
      (s : S) (a : A) (k : String)
      → lookup k (field (ops.update s a).0) ≡ (
          if is_some (lookup (key a) (field s)) && (key a == k) then some a else lookup k (field s))
  update_view s a k = elim (backed.updates s a) [
    | inl (missing, same) ↦ rw (missing, same) refl
    | inr (there, written, done) ↦ rw (there, written) (lookup-insert (key a) k a (field s))
  ]

  delete_result :
      (s : S) (k : String)
      → (ops.delete s k).1 ≡ (if is_some (lookup k (field s)) then none else some not_found)
  delete_result s k = elim (backed.deletes s k) [
    | inl (missing, same) ↦ rw (missing, same) refl
    | inr (there, written, done) ↦ rw (there, done) refl
  ]

  delete_view :
      (s : S) (k j : String)
      → lookup j (field (ops.delete s k).0) ≡ (if k == j then none else lookup j (field s))
  delete_view s k j = elim (backed.deletes s k) [
    | inl (missing, same) ↦ rw same (ground (arith, eq_iff k j))
    | inr (there, written, done) ↦ rw written (lookup-delete k j (field s))
  ]

  create-IsKeyed :
      (s : S) (a : A) → IsKeyed key ops field s → IsKeyed key ops field (ops.create s a).0
  create-IsKeyed s a h = elim (backed.creates s a) [
    | inl (e, same) ↦ rw same h
    | inr (written, done) ↦ IsKeyed-insert s _ a h written
  ]

  update-IsKeyed :
      (s : S) (a : A) → IsKeyed key ops field s → IsKeyed key ops field (ops.update s a).0
  update-IsKeyed s a h = elim (backed.updates s a) [
    | inl (missing, same) ↦ rw same h
    | inr (there, written, done) ↦ IsKeyed-insert s _ a h written
  ]

  delete-IsKeyed :
      (s : S) (k : String) → IsKeyed key ops field s → IsKeyed key ops field (ops.delete s k).0
  delete-IsKeyed s k h = elim (backed.deletes s k) [
    | inl (missing, same) ↦ rw same h
    | inr (there, written, done) ↦ IsKeyed-delete s _ k h written
  ]

  list_sound :
      (s : S) (l : List A)
      → IsKeyed key ops field s
      → ops.list s ≡ ok l
      → All (λ a. lookup (key a) (field s) ≡ some a) l
  list_sound s l h e =
      let same : sort_by key (values (field s)) ≡ l = cc (backed.lists s) in
      rw (← same) (
        sort_by-All key _ (values (field s)) (
          All-values _ (field s) _ (λ k a. λ p. rw p.0 p.1)
            (Entries-and (λ k a. key a ≡ k) _ (field s) h.own_key
              (Entries-self (field s) h.unique))))

  list_complete :
      (s : S) (l : List A) (k : String) (a : A)
      → lookup k (field s) ≡ some a
      → ops.list s ≡ ok l
      → Has a l
  list_complete s l k a v e =
      let same : sort_by key (values (field s)) ≡ l = cc (backed.lists s) in
      rw (← same) (Has-sort_by key a (values (field s)) (Has-values k a (field s) v))

  -- A store over one Go map keeps every promise of the interface.
  pub IsMapBacked-IsCrud : IsCrud key ops (λ s k. lookup k (field s)) (IsKeyed key ops field)
  IsMapBacked-IsCrud = record {
    get_view = get_view;
    create_ok = create_ok;
    create_err = create_err;
    update_result = update_result;
    update_view = update_view;
    delete_result = delete_result;
    delete_view = delete_view;
    create-IsValid = create-IsKeyed;
    update-IsValid = update-IsKeyed;
    delete-IsValid = delete-IsKeyed;
    view_key = λ s k a h e. Entries-lookup (λ k a. key a ≡ k) k a (field s) h.own_key e;
    list_sound = list_sound;
    list_complete = λ s l k a v. list_complete s l k a;
  }
