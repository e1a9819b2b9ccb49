-- ===== src/Netgroup/Tests.antt =====
-- The theorems on netgroups at concrete ones.
use ldapwarden.Prelude.{text, ◌===◌, ◌≡◌, refl, ◌↔◌, true, false, none, some, List, [], ◌∷◌}
use ldapwarden.Netgroup.Types.{NetgroupTriple, Netgroup, NetgroupsResponse}
use ldapwarden.Netgroup.Kind.{netgroup_kind, names_slot, scan, kind_of, NetgroupKind}
use ldapwarden.Netgroup.TripleText.{
  format_triple, netgroup_triple_text, IsCleanTriple, slots, netgroup_triple_text_iff,
}
use ldapwarden.Netgroup.Lookup.{resolve_netgroup_by_name, Claims, Sublist, resolve-Claims}

abbrev alice_triple : NetgroupTriple
alice_triple = record { host = text "-"; user = text "alice"; domain = [] }

abbrev web_triple : NetgroupTriple
web_triple = record { host = text "web01"; user = text "-"; domain = [] }

abbrev group_of : List NetgroupTriple → Netgroup
group_of ts = record {
  dn = text "cn=ops";
  cn = text "ops";
  description = none;
  triples = ts;
  malformed = none;
  members = none;
}

-- A netgroup of a user and a host names both, and a host alone names hosts.
kinds :
    (netgroup_kind (group_of (alice_triple ∷ web_triple ∷ [])) ≡ NetgroupKind.mixed)
    × (netgroup_kind (group_of (web_triple ∷ [])) ≡ NetgroupKind.hosts)
    × (netgroup_kind (group_of []) ≡ NetgroupKind.empty)
unfolding netgroup_kind scan kind_of names_slot ◌===◌
kinds = (refl, refl, refl)

netgroup_triple_text_iff_example :
    (netgroup_triple_text (text "(web01,-,)") ≡ true)
    ↔ ((t : NetgroupTriple) × IsCleanTriple t × (text "(web01,-,)" ≡ format_triple t))
netgroup_triple_text_iff_example = netgroup_triple_text_iff (text "(web01,-,)")

-- The check refuses a text with a slot too many and one with text behind it.
triple_texts :
    (netgroup_triple_text (text "(web01,-,)") ≡ true)
    × (netgroup_triple_text (text "(a,b,c,d)") ≡ false)
    × (netgroup_triple_text (text "(a,b,c) ") ≡ false)
unfolding netgroup_triple_text slots
triple_texts = (refl, refl, refl)

abbrev ops_page : NetgroupsResponse
ops_page = record {
  rows = group_of [] ∷ [];
  total = 1;
  limit = none;
  offset = none;
  truncated = none;
}

resolve-Claims_example :
    Claims (group_of [] ∷ []) (text "dev") (resolve_netgroup_by_name (text "dev") (some ops_page))
resolve-Claims_example =
    resolve-Claims (text "dev") ops_page (group_of [] ∷ [])
      (record { drawn = Sublist.keep Sublist.nil; counted = λ h. refl })
