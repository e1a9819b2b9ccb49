-- ===== src/Netgroup/Types.antt =====
-- The netgroup schemas of web/src/lib/api.ts, as the types that they infer.
use ldapwarden.Prelude.{JsString, ℕ, Bool, Option, List}

pub record NetgroupTriple : Type 0 where
  pub host : JsString
  pub user : JsString
  pub domain : JsString

pub record Netgroup : Type 0 where
  pub dn : JsString
  pub cn : JsString
  pub description : Option JsString
  pub triples : List NetgroupTriple
  pub malformed : Option (List JsString)
  pub members : Option (List JsString)

-- The field `data` of the response is `rows` here.
pub record NetgroupsResponse : Type 0 where
  pub rows : List Netgroup
  pub total : ℕ
  pub limit : Option ℕ
  pub offset : Option ℕ
  pub truncated : Option Bool

pub record NetgroupMember : Type 0 where
  pub name : JsString
  pub via : Option JsString

pub record NetgroupExpansion : Type 0 where
  pub root : JsString
  pub users : List NetgroupMember
  pub hosts : List NetgroupMember
  pub open_user : Option (List JsString)
  pub open_host : Option (List JsString)
  pub cycles : Option (List JsString)
  pub dangling : Option (List JsString)
