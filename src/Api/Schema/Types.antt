-- ===== src/Api/Schema/Types.antt =====
-- The types that the schemas of web/src/lib/api.ts stand for, `z.infer` in the source: what a value
-- is that one of them has returned.
use ldapwarden.Prelude.{JsString, includes, ◌≡◌, ◌⊎◌, true, List}
use ldapwarden.Values.{
  Value, Items, nil, cons, Fields, end, field, undefined, null, nan, infinity, minus_infinity, get,
}
use ldapwarden.Api.Schema.{Schema, Schemas, none_of, either, Shape, closed, entry}

-- Every element of an array, and every field of an object, is of a type.
abbrev AllItems : (Value → Type 0) → Items → Type 0
AllItems T nil = Unit {0}
AllItems T (cons v vs) = T v × AllItems T vs

abbrev AllFields : (Value → Type 0) → Fields → Type 0
AllFields T end = Unit {0}
AllFields T (field k v fs) = T v × AllFields T fs

abbrev IsString : Value → Type 0
IsString (Value.string s) = Unit {0}
IsString _ = ⊥

-- `z.number()` accepts finite numbers only.
abbrev IsNumber : Value → Type 0
IsNumber (Value.number nan) = ⊥
IsNumber (Value.number infinity) = ⊥
IsNumber (Value.number minus_infinity) = ⊥
IsNumber (Value.number n) = Unit {0}
IsNumber _ = ⊥

abbrev IsBoolean : Value → Type 0
IsBoolean (Value.boolean b) = Unit {0}
IsBoolean _ = ⊥

abbrev IsOneOf : List JsString → Value → Type 0
IsOneOf names (Value.string s) = includes s names ≡ true
IsOneOf names _ = ⊥

abbrev IsArrayOf : (Value → Type 0) → Value → Type 0
IsArrayOf T (Value.array vs) = AllItems T vs
IsArrayOf T _ = ⊥

abbrev IsRecordOf : (Value → Type 0) → Value → Type 0
IsRecordOf T (Value.object fs) = AllFields T fs
IsRecordOf T _ = ⊥

abbrev IsObjectWith : (Fields → Type 0) → Value → Type 0
IsObjectWith T (Value.object fs) = T fs
IsObjectWith T _ = ⊥

-- `T | undefined`, `T | null`, and `T ?? []`.
abbrev OrUndefined : (Value → Type 0) → Value → Type 0
OrUndefined T undefined = Unit {0}
OrUndefined T v = T v

abbrev OrNull : (Value → Type 0) → Value → Type 0
OrNull T null = Unit {0}
OrNull T v = T v

abbrev OrEmpty : (Value → Type 0) → Value → Type 0
OrEmpty T undefined = ⊥
OrEmpty T null = ⊥
OrEmpty T (Value.array nil) = Unit {0}
OrEmpty T v = T v

abbrev mutual
  pub Conforms : Schema → Value → Type 0
  Conforms Schema.string v = IsString v
  Conforms Schema.number v = IsNumber v
  Conforms Schema.boolean v = IsBoolean v
  Conforms Schema.unknown v = Unit {0}
  Conforms (Schema.one_of names) v = IsOneOf names v
  Conforms (Schema.array s) v = IsArrayOf (Conforms s) v
  Conforms (Schema.dictionary s) v = IsRecordOf (Conforms s) v
  Conforms (Schema.union schemas) v = ConformsAny schemas v
  Conforms (Schema.object shape) v = IsObjectWith (ConformsShape shape) v
  Conforms (Schema.optional s) v = OrUndefined (Conforms s) v
  Conforms (Schema.nullable s) v = OrNull (Conforms s) v
  Conforms (Schema.nullish s) v = OrNull (OrUndefined (Conforms s)) v
  Conforms (Schema.or_empty s) v = OrEmpty (Conforms s) v
  Conforms (Schema.default_to d s) v = Conforms s v
  Conforms (Schema.catching d s) v = (v ≡ d) ⊎ Conforms s v

  pub ConformsAny : Schemas → Value → Type 0
  ConformsAny none_of v = ⊥
  ConformsAny (either s schemas) v = Conforms s v ⊎ ConformsAny schemas v

  pub ConformsShape : Shape → Fields → Type 0
  ConformsShape closed fs = Unit {0}
  ConformsShape (entry key s rest) fs = Conforms s (get key fs) × ConformsShape rest fs
