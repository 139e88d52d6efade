-- ===== src/Scim/Served.antt =====
-- The SCIM handlers over a store that keeps the promise of the interface.
use mathlib.Core.Path.{subst}
use authpilot.Common.{
  ℕ, String, ◌≡◌, ◌≢◌, refl, sym, ◌∙◌, ap, false, List, [], ◌∷◌, ◌==◌, arith, Option, none, some,
  if◌then◌else◌, eq_iff, eq_refl, Bool-cases, inl, inr, Option-cases, Has, any, ne→==-false,
}
use authpilot.Domain.{User}
use authpilot.Store.{Result, ok, err, CrudStore, IsCrud, value_or}
use authpilot.Scim.{ScimUser, PatchItem, UserInput, Answer, resource, primary_value}
use authpilot.Scim.Render.{user_to_scim}
use authpilot.Scim.Patch.{patch_user}
use authpilot.Scim.Safety.{patch_user-protected}
use authpilot.Scim.Users.{
  create_user, get_user, replace_user, patch_user_handler, new_user, new_user_id, name_taken,
  replaced_user, not_found_user, updated_answer, created_answer,
}

updated_answer-ok :
    {S A B : Type 0} (show : A → B) (p : S × Result A) (a : A)
    → p.1 ≡ ok a
    → updated_answer show p ≡ (p.0, resource 200 (show a))
updated_answer-ok show (s, ok b) a e = ap (λ r. (s, resource 200 (show (value_or a r)))) e
updated_answer-ok show (s, err b) a e = cc

abbrev shown_in : {B : Type 0} → B → Answer B → B
shown_in default (resource status b) = b
shown_in default _ = default

created_answer-201 :
    {S A B : Type 0} (show : A → B) (p : S × Result A) (b : B)
    → (created_answer show p).1 ≡ resource 201 b
    → (a : A) × (p.1 ≡ ok a) × (show a ≡ b)
created_answer-201 show (s, ok a) b e = (a, refl, ap (shown_in (show a)) e)
created_answer-201 show (s, err x) b e = cc

created_answer-state :
    {S A B : Type 0} (show : A → B) (p : S × Result A) → (created_answer show p).0 ≡ p.0
created_answer-state show (s, ok a) = refl
created_answer-state show (s, err x) = refl

any-false :
    (l : List User) (u : User) (name : String)
    → Has u l
    → any (λ x. x.email == name) l ≡ false
    → u.email ≢ name
any-false [] u name h e = absurd h
any-false (x ∷ l) u name (inl same) e = rw (← same) (ground (arith, eq_iff x.email name))
any-false (x ∷ l) u name (inr h) e = any-false l u name h (ground arith)

-- the answer that shows what is stored, if anything is
abbrev pub answer_of : {A B : Type 0} → Answer B → (A → B) → Option A → Answer B
answer_of missing show none = missing
answer_of missing show (some a) = resource 200 (show a)

abbrev pub patched : {A : Type 0} → (A → A) → Option A → Option A
patched change none = none
patched change (some a) = some (change a)

-- what the handlers that change a stored entry have in common
module _ {S A : Type 0} {IsValid : S → Type 0} {key : A → String} (ops : CrudStore S A)
    (view : S → String → Option A) (law : IsCrud key ops view IsValid) where
  -- an update with the key of a stored entry
  update_known :
      (s : S) (id : String) (a b : A)
      → IsValid s
      → view s id ≡ some a
      → key b ≡ key a
      → ((ops.update s b).1 ≡ ok b)
        × ((k : String) → view (ops.update s b).0 k ≡ (if id == k then some b else view s k))
  update_known s id a b valid stored same =
      let at : key b ≡ id = same ∙ law.view_key s id a valid stored in
      let there : view s (key b) ≡ some a = rw at stored in
      (law.update_result s b ∙ rw there refl, λ k. law.update_view s b k ∙ rw (there, at) refl)

  abbrev pub modify : {B : Type 0} → Answer B → (A → B) → (A → A) → S → String → S × Answer B
  modify missing show change s id = elim (ops.get_by_id s id) [
    | err e ↦ (s, missing)
    | ok a ↦ updated_answer show (ops.update s (change a))
  ]

  pub modify_lem :
      {B : Type 0} (missing : Answer B) (show : A → B) (change : A → A) (s : S) (id : String)
      → ((a : A) → key (change a) ≡ key a)
      → IsValid s
      → let after = modify missing show change s id in
        (after.1 ≡ answer_of missing (λ a. show (change a)) (view s id))
        × ((k : String)
            → view after.0 k ≡ (if id == k then patched change (view s id) else view s k))
        × IsValid after.0
  modify_lem missing show change s id kept valid = elim (Option-cases (view s id)) [
    | inr none_there ↦
        rw (law.get_view s id, modify)
          (rw none_there (refl, λ k. ground (arith, eq_iff id k, none_there), valid))
    | inl (a, stored) ↦
        let (result, views) = update_known s id a (change a) valid stored (kept a) in
        rw (law.get_view s id, modify)
          (rw (stored, updated_answer-ok show (ops.update s (change a)) (change a) result)
            (refl, views, law.update-IsValid s (change a) valid))
  ]

module _ {S : Type 0} {IsValid : S → Type 0} (users : CrudStore S User)
    (view : S → String → Option User) (law : IsCrud (λ (x : User). x.id) users view IsValid) where
  -- A PATCH of a user changes the entry of its ID by the operations, whatever they are, and no other, and is
  -- answered with the patched user; it is answered 404 where the ID is not stored, and then no
  -- entry changes. This holds over any store that keeps the promise of the interface.
  pub patch_user_handler_lem :
      (s : S) (id : String) (items : List PatchItem)
      → IsValid s
      → let after = patch_user_handler users s id (some items) in
        (after.1 ≡ answer_of not_found_user (λ u. user_to_scim (patch_user u items) []) (view s id))
        × ((k : String)
            → view after.0 k
              ≡ (if id == k then patched (λ u. patch_user u items) (view s id) else view s k))
        × IsValid after.0
  unfolding patch_user_handler
  patch_user_handler_lem s id items valid =
      modify_lem users view law not_found_user (λ u. user_to_scim u []) (λ u. patch_user u items) s
        id (λ u. ap (λ x. x.id) (patch_user-protected u items)) valid

  free_name :
      (s : S) (name : String) (l : List User) (k : String) (u : User)
      → IsValid s
      → users.list s ≡ ok l
      → name_taken users s name ≡ false
      → view s k ≡ some u
      → u.email ≢ name
  unfolding name_taken
  free_name s name l k u valid listed free stored =
      any-false l u name (law.list_complete s l k u valid stored listed)
        (subst (λ r. any (λ x. x.email == name) (value_or [] r) ≡ false) listed free)

  get_stored :
      (s : S) (id : String) (u : User)
      → view s id ≡ some u
      → get_user users s id ≡ resource 200 (user_to_scim u [])
  unfolding get_user
  get_stored s id u stored = rw (law.get_view s id, get_user) (rw stored refl)

  -- Where the creation of a user is answered with 201, no stored user had the given name as email address,
  -- only the entry of the new ID has changed, and a request for that ID is answered with the
  -- resource that the creation showed. The list of the store must not fail: then the handler skips its check.
  pub create_user-get :
      (s : S) (id_now now : ℕ) (input : UserInput) (l : List User) (shown : ScimUser)
      → IsValid s
      → users.list s ≡ ok l
      → (create_user users s id_now now (some input)).1 ≡ resource 201 shown
      → let after = (create_user users s id_now now (some input)).0 in
        ((k : String) (u : User) → view s k ≡ some u → u.email ≢ input.user_name)
        × (get_user users after (new_user_id id_now) ≡ resource 200 shown)
        × ((k : String)
            → view after k
              ≡ (if new_user_id id_now == k then some (new_user id_now now input) else view s k))
        × IsValid after
  unfolding create_user
  create_user-get s id_now now input l shown valid listed =
      elim (Bool-cases (input.user_name == "")) [
        | inl blank ↦ rw blank (λ e. cc)
        | inr named ↦ elim (Bool-cases (name_taken users s input.user_name)) [
          | inl taken ↦ rw (named, taken) (λ e. cc)
          | inr free ↦
              let u = new_user id_now now input in
              rw (named, free)
                (λ e.
                  let (b, made, shows) =
                    created_answer-201 (λ x. user_to_scim x []) (users.create s u) shown e in
                  let (same, views) = law.create_ok s u b made in
                  rw (created_answer-state (λ x. user_to_scim x []) (users.create s u)) (
                    λ k v stored. free_name s input.user_name l k v valid listed free stored,
                    get_stored (users.create s u).0 (new_user_id id_now) u
                          (views (new_user_id id_now) ∙ rw (eq_refl (new_user_id id_now)) refl)
                        ∙ ap (resource 200) (ap (λ x. user_to_scim x []) (sym same) ∙ shows),
                    views,
                    law.create-IsValid s u valid,
                  ))
        ]
      ]

  -- The same for a replacement, which keeps the fields that SCIM does not write.
  pub replace_user_lem :
      (s : S) (id : String) (input : UserInput)
      → IsValid s
      → let after = replace_user users s id (some input) in
        (after.1
          ≡ answer_of not_found_user (λ u. user_to_scim (replaced_user u input) []) (view s id))
        × ((k : String)
            → view after.0 k
              ≡ (if id == k then patched (λ u. replaced_user u input) (view s id) else view s k))
        × IsValid after.0
  unfolding replace_user replaced_user
  replace_user_lem s id input valid =
      modify_lem users view law not_found_user (λ u. user_to_scim u []) (λ u. replaced_user u input)
        s id (λ u. refl) valid

  -- A replacement does not check the address: when it names the address of another stored user, the two
  -- users are stored with one address.
  pub replace_user-shares :
      (s : S) (id other : String) (u v : User) (input : UserInput)
      → IsValid s
      → id ≢ other
      → view s id ≡ some u
      → view s other ≡ some v
      → primary_value input.emails ≡ v.email
      → v.email ≢ ""
      → let after = (replace_user users s id (some input)).0 in
        (changed : User) × (view after id ≡ some changed)
        × (view after other ≡ some v)
        × (changed.email ≡ v.email)
  unfolding replaced_user
  replace_user-shares s id other u v input valid apart here there named full =
      let (answer, views, still) = replace_user_lem s id input valid in
      (
        replaced_user u input,
        views id ∙ rw (eq_refl id, here) refl,
        views other ∙ rw (ne→==-false id other apart, there) refl,
        rw (named, ne→==-false v.email "" full, ne→==-false v.email "" full) refl,
      )
