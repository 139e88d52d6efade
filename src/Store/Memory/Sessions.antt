-- ===== src/Store/Memory/Sessions.antt =====
-- server/internal/store/memory/sessions.go: sessions, also found by their refresh token.
use authpilot.Common.{
  ℕ, String, Bool, Option, none, some, List, [], ◌∷◌, ◌==◌, if◌then◌else◌, count_if, sort_by, ltb,
  count_if,
}
use authpilot.Common.GoMap.{GoMap, lookup, insert, delete as delete_key, drop_if, values}
use authpilot.Domain.{Session}
use authpilot.Store.{Err, not_found, Result, ok, err, CrudStore, SessionStore as StoreInterface}

pub record SessionStore : Type 0 where
  pub sessions : GoMap Session

-- `NewSessionStore`
abbrev pub new : SessionStore
new = record { sessions = [] }

unfoldable pub create : SessionStore → Session → SessionStore × Result Session
create s session = (record s { sessions = insert session.id session s.sessions }, ok session)

unfoldable pub get_by_id : SessionStore → String → Result Session
get_by_id s id = elim (lookup id s.sessions) [ none ↦ err not_found | some session ↦ ok session ]

unfoldable pub list : SessionStore → Result (List Session)
list s = ok (sort_by (λ x. x.id) (values s.sessions))

unfoldable pub update : SessionStore → Session → SessionStore × Result Session
update s session = elim (lookup session.id s.sessions) [
  | none ↦ (s, err not_found)
  | some _ ↦ (record s { sessions = insert session.id session s.sessions }, ok session)
]

unfoldable pub delete : SessionStore → String → SessionStore × Option Err
delete s id = elim (lookup id s.sessions) [
  | none ↦ (s, some not_found)
  | some _ ↦ (record s { sessions = delete_key id s.sessions }, none)
]

-- the loop of `GetByRefreshToken`, over the sessions in the order of the visit
unfoldable pub first_with_token : String → List Session → Result Session
first_with_token token [] = err not_found
first_with_token token (session ∷ rest) =
    if session.refresh_token == token then ok session else first_with_token token rest

unfoldable pub get_by_refresh_token : SessionStore → String → Result Session
unfolding first_with_token
get_by_refresh_token s token = first_with_token token (values s.sessions)

unfoldable pub is_expired : ℕ → Session → Bool
is_expired now session = ltb session.expires_at now

unfoldable pub delete_expired : SessionStore → ℕ → SessionStore × Result ℕ
unfolding is_expired
delete_expired s now = (
  record s { sessions = drop_if (is_expired now) s.sessions },
  ok (count_if (is_expired now) (values s.sessions)),
)

-- the methods, as the interface that clients use
abbrev pub crud : CrudStore SessionStore Session
crud = record {
  create = create;
  get_by_id = get_by_id;
  list = list;
  update = update;
  delete = delete;
}

abbrev pub session_store : StoreInterface SessionStore
session_store = record {
  crud = crud;
  get_by_refresh_token = get_by_refresh_token;
  delete_expired = delete_expired;
}
