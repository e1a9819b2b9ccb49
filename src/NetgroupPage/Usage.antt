-- ===== src/NetgroupPage/Usage.antt =====
-- What is said of the netgroups that a sudo rule names: web/src/components/netgroup-usage.tsx, with
-- the rule rows of netgroup-sudo-usage.tsx and the choice in netgroup-picker.tsx.
pub mod Laws
pub mod Complete
use ldapwarden.Prelude.{
  if◌then◌else◌, JsString, text, is_empty, includes, unique_from, filter, all, Bool, true, false,
  not, ◌&&◌, ◌||◌, Option, none, some, List, [], ◌∷◌, ◌++◌,
}
use ldapwarden.Netgroup.Types.{Netgroup, NetgroupsResponse}
use ldapwarden.Netgroup.Kind.{
  NetgroupKind, NetgroupSide, NetgroupSideFit, ok, ignored, partial, netgroup_kind,
  netgroup_side_fit,
}
use ldapwarden.Netgroup.Lookup.{
  NetgroupResolution, found, absent, unknown, resolve_netgroup_by_name, named_netgroups,
}

-- The names that a rule has on either side.
unfoldable pub rule_names : List JsString → List JsString → List JsString
unfolding unique_from
rule_names sudo_user sudo_host =
    unique_from [] (named_netgroups sudo_user ++ named_netgroups sudo_host)

-- `resolve`: what the answers to the searches, one for each name, say of a name.
unfoldable pub resolve :
    List JsString → (JsString → Option NetgroupsResponse) → JsString → NetgroupResolution
resolve names answer name =
    if includes name names then resolve_netgroup_by_name name (answer name) else unknown

pub record Problem : Type 0 where
  pub name : JsString
  pub kind : Option NetgroupKind
  pub side : NetgroupSide
  pub fit : NetgroupSideFit

unfoldable pub misfit : JsString → NetgroupKind → NetgroupSide → NetgroupSideFit → List Problem
misfit name kind side ok = []
misfit name kind side fit = record { name = name; kind = some kind; side = side; fit = fit } ∷ []

-- One round of the loop of `check`.
unfoldable pub check_name : NetgroupSide → JsString → NetgroupResolution → List Problem
unfolding misfit
check_name side name unknown = []
check_name side name absent = record { name = name; kind = none; side = side; fit = ignored } ∷ []
check_name side name (found netgroup) =
    misfit name (netgroup_kind netgroup) side (netgroup_side_fit (netgroup_kind netgroup) side)

unfoldable pub check_names :
    (JsString → NetgroupResolution) → NetgroupSide → List JsString → List Problem
unfolding check_name
check_names resolution side [] = []
check_names resolution side (name ∷ names) =
    check_name side name (resolution name) ++ check_names resolution side names

-- The problems of a rule, for the answers to the searches.
unfoldable pub problems :
    (JsString → Option NetgroupsResponse) → List JsString → List JsString → List Problem
unfolding check_names
problems answer sudo_user sudo_host =
    let resolution = resolve (rule_names sudo_user sudo_host) answer in
    check_names resolution NetgroupSide.users (named_netgroups sudo_user)
    ++ check_names resolution NetgroupSide.hosts (named_netgroups sudo_host)

-- The problems that are shown: none without netgroups, or before every search is settled.
unfoldable pub shown_problems :
    Bool
    → Bool
    → (JsString → Option NetgroupsResponse)
    → List JsString
    → List JsString
    → List Problem
unfolding problems
shown_problems supported settled answer sudo_user sudo_host =
    if not supported || is_empty (rule_names sudo_user sudo_host) || not settled
    then []
    else problems answer sudo_user sudo_host

abbrev pub is_partial : NetgroupSideFit → Bool
is_partial partial = true
is_partial _ = false

-- `onlyPartial`: the problems are a remark and no alarm.
unfoldable pub only_partial : List Problem → Bool
only_partial ps = all (λ p. is_partial p.fit) ps

abbrev slots_of : NetgroupSide → JsString
slots_of NetgroupSide.users = text "user"
slots_of NetgroupSide.hosts = text "host"

abbrev things_of : NetgroupKind → JsString
things_of NetgroupKind.users = text "users"
things_of _ = text "hosts"

unfoldable pub problem_text : Problem → JsString
problem_text p = elim p.kind [
  | none ↦ text "no netgroup of that name exists, so it matches nobody."
  | some kind ↦
      if is_partial p.fit
      then text "it names both users and hosts, and this side reads only the "
        ++ (slots_of p.side ++ text " slots — the rest is ignored.")
      else text "it names "
        ++ (things_of kind
            ++ (text ", and this side reads the "
                ++ (slots_of p.side ++ text " slots — which are empty, so it matches nobody.")))
]

abbrev is_ignored : NetgroupSideFit → Bool
is_ignored ignored = true
is_ignored _ = false

abbrev differ : Bool → Bool → Bool
differ true b = not b
differ false b = b

-- `ignored` of a row of netgroup-sudo-usage.tsx, for the values of the rule on the two sides.
unfoldable pub rule_ignores : JsString → NetgroupKind → List JsString → List JsString → Bool
rule_ignores reference kind sudo_user sudo_host =
    differ (includes reference sudo_user) (includes reference sudo_host)
    && is_ignored (
        netgroup_side_fit kind
          (if includes reference sudo_user then NetgroupSide.users else NetgroupSide.hosts))

-- The candidates of netgroup-picker.tsx: those whose reference is not on the rule yet.
unfoldable pub netgroup_candidates : List JsString → List Netgroup → List Netgroup
netgroup_candidates existing items = filter (λ n. not (includes (b'+' ∷ n.cn) existing)) items
