-- ===== src/NetgroupPage/Tests.antt =====
-- The theorems about the components for netgroups at concrete inputs.
use ldapwarden.Prelude.{
  trim_start, trim_end, trim, JsString, text, ◌===◌, All, ◌≡◌, refl, subst, ◌⊎◌, Option, none, some,
  List, [], ◌∷◌, arith,
}
use ldapwarden.Netgroup.Types.{NetgroupTriple, Netgroup, NetgroupsResponse}
use ldapwarden.Netgroup.Kind.{NetgroupKind, NetgroupSide, ignored, names_slot}
use ldapwarden.Netgroup.Lookup.{found, named_netgroups, IsAnswer, Sublist}
use ldapwarden.NetgroupPage.Usage.{check_name, problems}
use ldapwarden.NetgroupPage.Usage.Laws.{IsRight, SlotMatches, open_host_ignored}
use ldapwarden.NetgroupPage.Usage.Complete.{IsReported, IsExcused, problems_exact}
use ldapwarden.NetgroupPage.Triples.{
  Editor, adds, removes, types_user, act_all, add, same_triple, next_triple,
}
use ldapwarden.NetgroupPage.Triples.Laws.{IsSound, act_all-IsSound}

abbrev jdoe : NetgroupTriple
jdoe = record { host = []; user = text "jdoe"; domain = [] }

abbrev ops : Netgroup
ops = record {
  dn = text "cn=ops,dc=x";
  cn = text "ops";
  description = none;
  triples = jdoe ∷ [];
  malformed = none;
  members = none;
}

abbrev page : NetgroupsResponse
page = record { rows = ops ∷ []; total = 1; limit = some 50; offset = none; truncated = none }

abbrev matches : JsString → List Netgroup
matches name = ops ∷ []

abbrev answer : JsString → Option NetgroupsResponse
answer name = some page

page-IsAnswer :
    (name : JsString) (p : NetgroupsResponse) → answer name ≡ some p → IsAnswer p (matches name)
page-IsAnswer name p e =
    let same : page ≡ p = unsome e in
    subst (λ q. IsAnswer q (matches name)) same
      (record { drawn = Sublist.keep Sublist.nil; counted = λ _. refl })
  where
    unsome : {a b : NetgroupsResponse} → Option.some a ≡ some b → a ≡ b
    unsome q = ground arith

problems_exact_example :
    All
      (IsRight matches (text "+oops" ∷ []) (text "+ops" ∷ []))
      (problems answer (text "+oops" ∷ []) (text "+ops" ∷ []))
    × All
        (λ name.
          IsReported
            (problems answer (text "+oops" ∷ []) (text "+ops" ∷ []))
            NetgroupSide.hosts
            name
          ⊎ IsExcused answer NetgroupSide.hosts name)
        (named_netgroups (text "+ops" ∷ []))
problems_exact_example =
    problems_exact matches answer page-IsAnswer (text "+oops" ∷ []) (text "+ops" ∷ [])
      NetgroupSide.hosts

open_host_ignored_example :
    (check_name NetgroupSide.hosts (text "ops") (found ops)
      ≡ record {
        name = text "ops";
        kind = some NetgroupKind.users;
        side = NetgroupSide.hosts;
        fit = ignored;
      }
        ∷ [])
    × All (λ triple. SlotMatches triple.host (text "web01")) (jdoe ∷ [])
unfolding names_slot ◌===◌
open_host_ignored_example = open_host_ignored ops jdoe [] (text "web01") refl ((refl, refl), tt)

abbrev editor : Editor
editor = record { triples = jdoe ∷ []; user = text " jdoe "; host = [] }

act_all-IsSound_example :
    IsSound (act_all editor (adds ∷ types_user (text "asmith") ∷ adds ∷ removes 0 ∷ [])).triples
act_all-IsSound_example =
    act_all-IsSound editor (adds ∷ types_user (text "asmith") ∷ adds ∷ removes 0 ∷ [])
      ((refl, tt), (tt, tt))

added_once : (add editor).triples ≡ jdoe ∷ []
unfolding add next_triple same_triple trim trim_start trim_end ◌===◌
added_once = refl
