-- ===== src/Http/Idempotency.antt =====
-- server/internal/httpapi/middleware.go: the replay of responses to requests with an
-- `Idempotency-Key`. The handler behind the middleware is an argument, on a state of its own.
use Prim.Native.String
use mathlib.Core.Path.{subst}
use authpilot.Common.{
  ℕ, ◌-◌, ◌≤◌, String, ◌≡◌, ◌≢◌, refl, sym, ap, ◌∙◌, Bool, true, not, Option, none, some, List, [],
  ◌∷◌, arith, ◌==◌, eq_iff, eq_refl, if◌then◌else◌, ltb, Bool-cases, Option-cases, inl, inr,
  ne→==-false,
}
use authpilot.Common.GoMap.{
  GoMap, lookup, insert, drop_if, lookup-insert, lookup-drop_if, HasUniqueKeys,
}
use authpilot.Common.Text.{trim_space}

pub record ApiRequest : Type 0 where
  pub method : String
  pub path : String
  pub idempotency_key : String
  pub tenant_id : String
  pub body : String

pub record Response : Type 0 where
  pub status : ℕ
  pub headers : GoMap (List String)
  pub body : String

-- `idempotencyEntry`
pub record Entry : Type 0 where
  pub response : Response
  pub created : ℕ

pub record IdempotencyStore : Type 0 where
  pub entries : GoMap Entry
  pub ttl : ℕ

-- `newIdempotencyStore`
abbrev pub new : ℕ → IdempotencyStore
new ttl = record { entries = []; ttl = ttl }

unfoldable pub is_stale : ℕ → ℕ → Entry → Bool
is_stale ttl now e = ltb ttl (now - e.created)

unfoldable pub get : ℕ → IdempotencyStore → String → Option Entry
get now s key = elim (lookup key s.entries) [
  | none ↦ none
  | some e ↦ if is_stale s.ttl now e then none else some e
]

unfoldable pub set : IdempotencyStore → String → Entry → IdempotencyStore
set s key e = record s { entries = insert key e s.entries }

unfoldable pub evict : ℕ → IdempotencyStore → IdempotencyStore
evict now s = record s { entries = drop_if (is_stale s.ttl now) s.entries }

-- `cacheKey`
unfoldable pub cache_key : ApiRequest → String
cache_key r =
    String.◌++◌ (String.◌++◌ (String.◌++◌ (String.◌++◌ r.method ":") r.path) ":")
      (trim_space r.idempotency_key)

abbrev pub replayed : Response → Response
replayed response = record response {
  headers = insert "Idempotent-Replayed" ("true" ∷ []) response.headers;
}

module _ {W : Type 0} (next : W → ApiRequest → W × Response) where
  -- a request that is not in the cache is served, and its response kept
  abbrev fresh : ℕ → IdempotencyStore → W → ApiRequest → IdempotencyStore × W × Response
  fresh later s w r =
      let (w', response) = next w r in
      (set s (cache_key r) (record { response = response; created = later }), w', response)

  -- `idempotencyMiddleware`, at the time `now`, and `later` where it keeps the response
  unfoldable pub idempotent :
      ℕ → ℕ → IdempotencyStore → W → ApiRequest → IdempotencyStore × W × Response
  idempotent now later s w r =
      let (w', response) = next w r in
      if not (r.method == "POST")
      then (s, w', response)
      else if trim_space r.idempotency_key == ""
      then (s, w', response)
      else elim (get now s (cache_key r)) [
        | some e ↦ (s, w, replayed e.response)
        | none ↦ fresh later s w r
      ]

  -- what `set` has kept is there until it is stale
  get-set :
      (now : ℕ) (s : IdempotencyStore) (key : String) (e : Entry)
      → now - e.created ≤ s.ttl
      → get now (set s key e) key ≡ some e
  unfolding get set is_stale
  get-set now s key e in_time =
      let there : lookup key (insert key e s.entries) ≡ some e =
        lookup-insert key key e s.entries ∙ rw (eq_refl key) refl in
      rw (there, get) (ground arith)

  serve-missing :
      (now later : ℕ) (s : IdempotencyStore) (w : W) (r : ApiRequest)
      → r.method ≡ "POST"
      → trim_space r.idempotency_key ≢ ""
      → get now s (cache_key r) ≡ none
      → idempotent now later s w r ≡ fresh later s w r
  unfolding idempotent
  serve-missing now later s w r post given missing =
      let is_post : (r.method == "POST") ≡ true = (eq_iff r.method "POST").1 post in
      rw (is_post, ne→==-false (trim_space r.idempotency_key) "" given, missing, idempotent) refl

  serve-cached :
      (now later : ℕ) (s : IdempotencyStore) (w : W) (r : ApiRequest) (e : Entry)
      → r.method ≡ "POST"
      → trim_space r.idempotency_key ≢ ""
      → get now s (cache_key r) ≡ some e
      → idempotent now later s w r ≡ (s, w, replayed e.response)
  unfolding idempotent
  serve-cached now later s w r e post given cached =
      let is_post : (r.method == "POST") ≡ true = (eq_iff r.method "POST").1 post in
      rw (is_post, ne→==-false (trim_space r.idempotency_key) "" given, cached, idempotent) refl

  same_cache_key :
      (r₁ r₂ : ApiRequest)
      → r₂.method ≡ r₁.method
      → r₂.path ≡ r₁.path
      → trim_space r₂.idempotency_key ≡ trim_space r₁.idempotency_key
      → cache_key r₂ ≡ cache_key r₁
  unfolding cache_key
  same_cache_key r₁ r₂ methods paths keys = λ i.
      String.◌++◌ (String.◌++◌ (String.◌++◌ (String.◌++◌ (methods i) ":") (paths i)) ":") (keys i)

  -- A POST request with a key that is not in the cache is served and its response kept; a request with
  -- the same path and key within the lifetime is answered with that response, marked as replayed, and
  -- is not served, whatever its body and its tenant are.
  pub replays-once :
      (now₁ later₁ now₂ later₂ : ℕ) (s : IdempotencyStore) (w w₂ : W) (r₁ r₂ : ApiRequest)
      → r₁.method ≡ "POST"
      → r₂.method ≡ "POST"
      → trim_space r₁.idempotency_key ≢ ""
      → trim_space r₂.idempotency_key ≡ trim_space r₁.idempotency_key
      → r₂.path ≡ r₁.path
      → get now₁ s (cache_key r₁) ≡ none
      → now₂ - later₁ ≤ s.ttl
      → let (s₁, w₁, response) = idempotent now₁ later₁ s w r₁ in
        (w₁ ≡ (next w r₁).0)
        × (response ≡ (next w r₁).1)
        × (idempotent now₂ later₂ s₁ w₂ r₂ ≡ (s₁, w₂, replayed response))
  replays-once now₁ later₁ now₂ later₂ s w w₂ r₁ r₂ post₁ post₂ given same_key same_path missing
        in_time =
      let done = serve-missing now₁ later₁ s w r₁ post₁ given missing in
      let e : Entry = record { response = (next w r₁).1; created = later₁ } in
      let s₁ = set s (cache_key r₁) e in
      let kept =
        ap (get now₂ s₁) (same_cache_key r₁ r₂ (post₂ ∙ sym post₁) same_path same_key)
        ∙ get-set now₂ s (cache_key r₁) e in_time in
      subst
        (λ p.
          (p.1 ≡ (next w r₁).0)
          × (p.2 ≡ (next w r₁).1)
          × (idempotent now₂ later₂ p.0 w₂ r₂ ≡ (p.0, w₂, replayed p.2)))
        (sym done)
        (
          refl,
          refl,
          serve-cached now₂ later₂ s₁ w₂ r₂ e post₂ (λ empty. given (sym same_key ∙ empty)) kept,
        )

-- An eviction that has taken place is not noticed: what is read afterwards is what was read before.
pub get-evict :
    (then_ now : ℕ) (s : IdempotencyStore) (key : String)
    → HasUniqueKeys s.entries
    → then_ ≤ now
    → get now (evict then_ s) key ≡ get now s key
unfolding get evict is_stale
get-evict then_ now s key unique past = elim (Option-cases (lookup key s.entries)) [
  | inr nothing ↦
      let gone : lookup key (drop_if (is_stale s.ttl then_) s.entries) ≡ none =
        lookup-drop_if (is_stale s.ttl then_) key s.entries unique ∙ rw nothing refl in
      rw (gone, nothing, get) refl
  | inl (e, held) ↦ elim (Bool-cases (is_stale s.ttl then_ e)) [
    | inl stale ↦
        let gone : lookup key (drop_if (is_stale s.ttl then_) s.entries) ≡ none =
          lookup-drop_if (is_stale s.ttl then_) key s.entries unique ∙ rw (held, stale) refl in
        let still : is_stale s.ttl now e ≡ true = ground arith in rw (gone, held, get, still) refl
    | inr young ↦
        let kept : lookup key (drop_if (is_stale s.ttl then_) s.entries) ≡ some e =
          lookup-drop_if (is_stale s.ttl then_) key s.entries unique ∙ rw (held, young) refl in
        rw (kept, held, get) refl
  ]
]
