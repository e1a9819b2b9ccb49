-- ===== src/Netgroup/Kind.antt =====
-- What a netgroup names, and how a sudo field reads it: `netgroupKind`, `netgroupSideFit` and the
-- wording of web/src/lib/netgroup.ts.
use ldapwarden.Prelude.{
  if◌then◌else◌, JsString, text, ◌===◌, is_empty, Bool, true, false, not, ◌&&◌, Option, none, some,
  List, [], ◌∷◌, ◌++◌,
}
use ldapwarden.Netgroup.Types.{NetgroupTriple, Netgroup, NetgroupExpansion}

abbrev pub netgroup_no_match : JsString
netgroup_no_match = text "-"

pub data NetgroupKind : Type 0 where
  users hosts mixed empty : NetgroupKind

-- A slot that is filled and is not the marker.
unfoldable pub names_slot : JsString → Bool
names_slot v = not (is_empty v) && not (v === netgroup_no_match)

-- The loop, over the two flags.
unfoldable pub scan : Bool → Bool → List NetgroupTriple → Bool × Bool
scan us hs [] = (us, hs)
scan us hs (t ∷ ts) =
    scan (if names_slot t.user then true else us) (if names_slot t.host then true else hs) ts

unfoldable pub kind_of : Bool × Bool → NetgroupKind
kind_of (us, hs) = if us && hs then mixed else if us then users else if hs then hosts else empty

unfoldable pub netgroup_kind : Netgroup → NetgroupKind
netgroup_kind n = kind_of (scan false false n.triples)

unfoldable pub netgroup_kind_label : NetgroupKind → JsString
netgroup_kind_label users =
    text "Names users, so it belongs in a sudo rule’s Users field as “+name”."
netgroup_kind_label hosts =
    text "Names hosts, so it belongs in a sudo rule’s Hosts field as “+name”."
netgroup_kind_label mixed =
    text "Names both users and hosts. Used from a sudo rule, only the matching half applies — "
    ++ text "the rest is ignored without warning."
netgroup_kind_label empty =
    text "Names nothing of its own; whatever it holds comes from the netgroups it nests."

unfoldable pub slot_label : JsString → JsString → JsString → JsString
slot_label value open_label none_label =
    if is_empty value then open_label else if value === netgroup_no_match then none_label else value

unfoldable pub describe_triple : NetgroupTriple → JsString
describe_triple t =
    slot_label t.user (text "any user") (text "no user")
    ++ (text " on " ++ slot_label t.host (text "any host") (text "no host"))

-- `(names?.length ?? 0) > 0`.
abbrev is_listed : Option (List JsString) → Bool
is_listed none = false
is_listed (some xs) = not (is_empty xs)

unfoldable pub matches_any_host : NetgroupExpansion → Bool
matches_any_host e = is_listed e.open_host

unfoldable pub matches_any_user : NetgroupExpansion → Bool
matches_any_user e = is_listed e.open_user

pub data NetgroupSide : Type 0 where
  users hosts : NetgroupSide

pub data NetgroupSideFit : Type 0 where
  ok ignored partial : NetgroupSideFit

-- `kind === side`.
abbrev pub is_side : NetgroupKind → NetgroupSide → Bool
is_side NetgroupKind.users NetgroupSide.users = true
is_side NetgroupKind.hosts NetgroupSide.hosts = true
is_side _ _ = false

unfoldable pub netgroup_side_fit : NetgroupKind → NetgroupSide → NetgroupSideFit
netgroup_side_fit NetgroupKind.empty side = ok
netgroup_side_fit NetgroupKind.mixed side = partial
netgroup_side_fit kind side = if is_side kind side then ok else ignored
