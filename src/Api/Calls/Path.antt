-- ===== src/Api/Calls/Path.antt =====
-- What becomes of a request about an entry: the path that `fetch` makes of the endpoint, and the
-- route that the server (internal/api/routes.go) finds for it.
use mathlib.Core.Bool.{false≢true}
use mathlib.Core.List.{append-nil, append_assoc}
use ldapwarden.Prelude.{
  ◌==◌, if◌then◌else◌, Bool-cases, and-eq-true, some-injective, ◌>>=◌, split_on, split_on-none,
  split_on-append, JsString, text, ◌===◌, ===_eq, includes, any, all, All, All-weaken, ◌≡◌, refl,
  sym, ap, ◌∙◌, subst, ◌≢◌, inl, inr, Bool, true, false, not, ◌||◌, Option, none, some, List, [],
  ◌∷◌, ◌++◌, arith,
}
use ldapwarden.Values.{Value}
use ldapwarden.Api.Schema.{Schema}
use ldapwarden.Api.Uri.{encode_uri_component}
use ldapwarden.Api.Uri.Percent.{unescape, hex_value}
use ldapwarden.Api.Uri.Utf8.{IsUnit, decode_utf8, units}
use ldapwarden.Api.Uri.SegmentLaws.{read_segment, read_segment-encode_uri_component}
use ldapwarden.Api.Request.{Request, Method, entry_path, fetches_entry, sends_entry}

-- The segments that the URL Standard takes for `.` and `..`, and so removes from a path.
abbrev single_dots : List JsString
single_dots = text "." ∷ text "%2e" ∷ text "%2E" ∷ []

abbrev double_dots : List JsString
double_dots =
    text ".."
    ∷ text ".%2e"
    ∷ text ".%2E"
    ∷ text "%2e."
    ∷ text "%2E."
    ∷ text "%2e%2e"
    ∷ text "%2e%2E"
    ∷ text "%2E%2e"
    ∷ text "%2E%2E"
    ∷ []

abbrev but_last : List JsString → List JsString
but_last [] = []
but_last (s ∷ []) = []
but_last (s ∷ t ∷ rest) = s ∷ but_last (t ∷ rest)

-- A dot segment at the end leaves an empty segment.
abbrev at_end : List JsString → List JsString → List JsString
at_end [] done = done ++ [] ∷ []
at_end (_ ∷ _) done = done

-- The segments of a path as `fetch` requests it, behind those that are done.
unfoldable pub remove_dots : List JsString → List JsString → List JsString
remove_dots done [] = done
remove_dots done (s ∷ segments) =
    let up = remove_dots (at_end segments (but_last done)) segments in
    let stays = remove_dots (at_end segments done) segments in
    let further = remove_dots (done ++ s ∷ []) segments in
    if includes s double_dots then up else if includes s single_dots then stays else further

unfoldable pub fetched_path : JsString → List JsString
unfolding remove_dots
fetched_path endpoint = remove_dots [] (split_on b'/' (text "api" ++ endpoint))

-- A route about an entry: /api/resource/{dn} or /api/resource/{dn}/action.
pub record EntryRoute : Type 0 where
  pub method : Method
  pub resource : JsString
  pub dn : JsString
  pub action : Option JsString

abbrev pub entry_route : Method → JsString → JsString → Option JsString → Option EntryRoute
entry_route method resource dn action =
    some (record { method = method; resource = resource; dn = dn; action = action })

-- An empty segment is no parameter, and a fixed name comes before the parameter.
abbrev fixed_names : List JsString
fixed_names = [] ∷ text "import" ∷ []

unfoldable pub route_at : Method → List JsString → Option EntryRoute
route_at method (api ∷ resource ∷ segment ∷ []) =
    if not (api === text "api") || includes segment fixed_names
    then none
    else entry_route method resource (read_segment segment) none
route_at method (api ∷ resource ∷ segment ∷ action ∷ []) =
    if not (api === text "api") || includes segment fixed_names
    then none
    else entry_route method resource (read_segment segment) (some action)
route_at method _ = none

-- The route that a request takes.
unfoldable pub route_of : Request → Option EntryRoute
unfolding route_at fetched_path
route_of q = route_at q.method (fetched_path q.endpoint)

-- A DN with an RDN has an equals sign.
abbrev pub has_equals : JsString → Bool
has_equals s = any (λ c. c == b'=') s

-- A segment that is kept.
abbrev IsKept : JsString → Type 0
IsKept s = (includes s double_dots ≡ false) × (includes s single_dots ≡ false)

-- A segment of the code: no slash in it, and no dot segment.
abbrev IsPlain : JsString → Type 0
IsPlain s = (all (λ c. not (c == b'/')) s ≡ true) × IsKept s

remove_dots-IsKept :
    (done segments : List JsString)
    → All IsKept segments
    → remove_dots done segments ≡ done ++ segments
unfolding remove_dots
remove_dots-IsKept done [] h = sym (append-nil done)
remove_dots-IsKept done (s ∷ segments) ((up, stays), h) =
    rw (up, stays)
      (remove_dots-IsKept (done ++ s ∷ []) segments h ∙ append_assoc done (s ∷ []) segments)

-- None of the words is read as a DN with an RDN.
abbrev AreOther : List JsString → Type 0
AreOther words = all (λ s. not (has_equals (read_segment s))) words ≡ true

other_words : AreOther fixed_names × AreOther double_dots × AreOther single_dots
unfolding read_segment decode_utf8 units unescape hex_value
other_words = (refl, refl, refl)

includes-other :
    (words : List JsString) (e : JsString)
    → AreOther words
    → has_equals (read_segment e) ≡ true
    → includes e words ≡ false
includes-other [] e h k = refl
includes-other (w ∷ words) e h k = elim (Bool-cases (w === e)) [
  | inl same ↦
      let equal : has_equals (read_segment w) ≡ true = rw (===_eq w e same) k in
      absurd (false≢true (sym (ap not equal) ∙ (and-eq-true h).0))
  | inr other ↦ rw other (includes-other words e (and-eq-true h).1 k)
]

no_slash : (s : JsString) → all (λ c. not (c == b'/')) s ≡ true → All (λ c. c ≢ b'/') s
no_slash [] h = tt
no_slash (c ∷ s) h = ((λ e. ground arith), no_slash s (ground arith))

-- What stands behind the DN.
abbrev pub rest_of : Option JsString → JsString
rest_of none = []
rest_of (some action) = b'/' ∷ action

abbrev pub IsAction : Option JsString → Type 0
IsAction none = Unit {0}
IsAction (some action) = IsPlain action

abbrev action_segments : Option JsString → List JsString
action_segments none = []
action_segments (some action) = action ∷ []

split_rest :
    (e : JsString) (action : Option JsString)
    → All (λ c. c ≢ b'/') e
    → IsAction action
    → split_on b'/' (e ++ rest_of action) ≡ e ∷ action_segments action
split_rest e none h a = ap (split_on b'/') (append-nil e) ∙ split_on-none b'/' e h
split_rest e (some action) h (a, _) =
    split_on-append b'/' e action h ∙ ap (◌∷◌ e) (split_on-none b'/' action (no_slash action a))

action-IsKept : (action : Option JsString) → IsAction action → All IsKept (action_segments action)
action-IsKept none a = tt
action-IsKept (some action) (_, k) = (k, tt)

fetched_path_lem :
    (resource e : JsString) (action : Option JsString)
    → IsPlain resource
    → IsAction action
    → All (λ c. c ≢ b'/') e
    → IsKept e
    → fetched_path (b'/' ∷ (resource ++ (b'/' ∷ (e ++ rest_of action))))
      ≡ text "api" ∷ resource ∷ e ∷ action_segments action
unfolding fetched_path ◌===◌
fetched_path_lem resource e action (r, kept) a h k =
    let rest = e ++ rest_of action in
    let parts : split_on b'/' (text "api" ++ (b'/' ∷ (resource ++ (b'/' ∷ rest))))
        ≡ text "api" ∷ resource ∷ e ∷ action_segments action =
      split_on-append b'/' (text "api") (resource ++ (b'/' ∷ rest)) (no_slash (text "api") refl)
      ∙ ap (◌∷◌ (text "api")) (
          split_on-append b'/' resource rest (no_slash resource r)
          ∙ ap (◌∷◌ resource) (split_rest e action h a)) in
    rw parts (
      remove_dots-IsKept [] (text "api" ∷ resource ∷ e ∷ action_segments action)
        ((refl, refl), (kept, (k, action-IsKept action a))))

route_at_lem :
    (m : Method) (resource e : JsString) (action : Option JsString)
    → includes e fixed_names ≡ false
    → route_at m (text "api" ∷ resource ∷ e ∷ action_segments action)
      ≡ entry_route m resource (read_segment e) action
unfolding route_at ◌===◌
route_at_lem m resource e none h = rw h refl
route_at_lem m resource e (some action) h = rw h refl

-- The path that the code builds for a DN leads to the route for it.
entry_path-route :
    (m : Method) (resource d p : JsString) (action : Option JsString)
    → IsPlain resource
    → IsAction action
    → All IsUnit d
    → has_equals d ≡ true
    → entry_path resource d (rest_of action) ≡ some p
    → route_at m (fetched_path p) ≡ entry_route m resource d action
unfolding entry_path
entry_path-route m resource d p action r a u eq found =
    let (e, encoded, same) = split_bind (encode_uri_component d) found in
    let (safe, back) = read_segment-encode_uri_component d e u encoded in
    let equals : has_equals (read_segment e) ≡ true = rw back eq in
    let (fixed, double, single) = other_words in
    let kept : IsKept e =
      (includes-other double_dots e double equals, includes-other single_dots e single equals) in
    let path = fetched_path_lem resource e action r a (All-weaken e (λ c h. h.0) safe) kept in
    rw (← same, path)
      (route_at_lem m resource e action (includes-other fixed_names e fixed equals)
        ∙ ap (λ x. entry_route m resource x action) back)
  where
    split_bind :
        (o : Option JsString)
        → (o >>= λ e. some (b'/' ∷ (resource ++ (b'/' ∷ (e ++ rest_of action))))) ≡ some p
        → (e : JsString) × (o ≡ some e) × (b'/' ∷ (resource ++ (b'/' ∷ (e ++ rest_of action))) ≡ p)
    split_bind none k = cc
    split_bind (some e) k = (e, refl, ground arith)

-- The requests that take a route.
abbrev pub Takes : EntryRoute → Option Request → Type 0
Takes route o = (q : Request) → o ≡ some q → route_of q ≡ some route

-- The DN of a route, if it is one with an RDN.
pub record IsAddress (route : EntryRoute) : Type 0 where
  pub units : All IsUnit route.dn
  pub equals : has_equals route.dn ≡ true

module _ (m : Method) (resource d : JsString) (action : Option JsString) (route : EntryRoute)
    (here : entry_route m resource d action ≡ some route) (r : IsPlain resource)
    (a : IsAction action) (address : IsAddress route) where
  at :
      (p : JsString)
      → entry_path resource d (rest_of action) ≡ some p
      → route_at m (fetched_path p) ≡ some route
  at p found =
      let same : d ≡ route.dn = ap (λ (x : EntryRoute). x.dn) (some-injective here) in
      entry_path-route m resource d p action r a (subst (All IsUnit) (sym same) address.units)
        (ap has_equals same ∙ address.equals) found
      ∙ here

  pub sends-Takes :
      (body : Option Value) (s : Option Schema)
      → Takes route (sends_entry m (entry_path resource d (rest_of action)) body s)
  unfolding route_of
  sends-Takes body s q k = from (entry_path resource d (rest_of action)) refl k
    where
      from :
          (o : Option JsString)
          → entry_path resource d (rest_of action) ≡ o
          → sends_entry m o body s ≡ some q
          → route_at q.method (fetched_path q.endpoint) ≡ some route
      from none f k = cc
      from (some p) f k =
          subst (λ x. route_at x.method (fetched_path x.endpoint) ≡ some route) (some-injective k)
            (at p f)

pub fetches-Takes :
    (resource d : JsString) (action : Option JsString) (route : EntryRoute)
    → entry_route Method.get resource d action ≡ some route
    → IsPlain resource
    → IsAction action
    → IsAddress route
    → (s : Schema) → Takes route (fetches_entry (entry_path resource d (rest_of action)) s)
fetches-Takes resource d action route here r a address s q k =
    sends-Takes Method.get resource d action route here r a address none (some s) q (go _ k)
  where
    go :
        (o : Option JsString)
        → fetches_entry o s ≡ some q
        → sends_entry Method.get o none (some s) ≡ some q
    go none k = cc
    go (some p) k = k
