-- ===== src/NetgroupPage/Triples.antt =====
-- Editing the triples of a netgroup: TripleEditor of web/src/components/netgroup-triples.tsx.
pub mod Laws
use ldapwarden.Prelude.{
  if◌then◌else◌, trim, JsString, ◌===◌, is_empty, take, filter, any, remove_at, ℕ, Bool, not, ◌&&◌,
  Option, none, some, List, [], ◌∷◌, ◌++◌,
}
use ldapwarden.Netgroup.Types.{NetgroupTriple}

-- The triples, and the input of the two fields.
pub record Editor : Type 0 where
  pub triples : List NetgroupTriple
  pub user : JsString
  pub host : JsString

unfoldable pub next_triple : Editor → NetgroupTriple
next_triple s = record { host = trim s.host; user = trim s.user; domain = [] }

unfoldable pub same_triple : NetgroupTriple → NetgroupTriple → Bool
same_triple t next = t.user === next.user && (t.host === next.host && t.domain === next.domain)

-- The two early returns of `add`, and the rest of it.
unfoldable pub add : Editor → Editor
unfolding next_triple
add s =
    let next = next_triple s in
    if is_empty next.user && is_empty next.host
    then s
    else if any (λ t. same_triple t next) s.triples
    then s
    else record { triples = s.triples ++ next ∷ []; user = []; host = [] }

-- `triples.filter((_, i) => i !== index)`.
unfoldable pub remove : ℕ → Editor → Editor
remove index s = record s { triples = remove_at index s.triples }

-- The test that disables the button and shows the warning.
unfoldable pub is_open_input : Editor → Bool
is_open_input s = is_empty (trim s.user) && is_empty (trim s.host)

pub data Action : Type 0 where
  adds : Action
  removes : ℕ → Action
  types_user types_host : JsString → Action

unfoldable pub act : Editor → Action → Editor
unfolding add remove
act s adds = add s
act s (removes index) = remove index s
act s (types_user value) = record s { user = value }
act s (types_host value) = record s { host = value }

unfoldable pub act_all : Editor → List Action → Editor
unfolding act
act_all s [] = s
act_all s (a ∷ actions) = act_all (act s a) actions

-- The suggestions under the field for the user: nothing where a match is what is typed.
unfoldable pub suggestions : List JsString → JsString → Option (List JsString)
suggestions uids typed =
    if any (λ u. u === typed) uids
    then none
    else some (take 5 (filter (λ u. not (u === typed)) uids))
