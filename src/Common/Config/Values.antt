-- ===== src/Common/Config/Values.antt =====
-- The dynamic values of a configuration map. A Go map is the list of its entries, in the order in
-- which a loop over it meets them.
use awstools.Prelude.{Bool, Option, none, some, List, [], ◌∷◌, if◌then◌else◌}
use awstools.Prelude.Text.{Text, eq_text}

-- The keys of KeyPrefixes and ValuePrefixes.
pub data SourceType : Type 0 where
  kms ssm secrets_manager file : SourceType

pub record Source : Type 0 where
  pub kind : SourceType
  pub name : Text
  pub identifier : Text
  pub collapse : Bool

-- interface{}, as json.Unmarshal and GenerateFromMap fill it. A number is its literal.
mutual
  pub data Value : Type 0 where
    null : Value
    boolean : Bool → Value
    number : Text → Value
    text : Text → Value
    list : Items → Value
    object : Fields → Value
    secret : Source → Value

  pub data Items : Type 0 where
    nil : Items
    cons : Value → Items → Items

  pub data Fields : Type 0 where
    end : Fields
    field : Text → Value → Fields → Fields

-- m[key] = value
unfoldable pub put : Text → Value → Fields → Fields
put k v end = field k v end
put k v (field j w m) = let rest = put k v m in if eq_text j k then field j v m else field j w rest

-- m[key]
unfoldable pub get : Text → Fields → Option Value
get k end = none
get k (field j w m) = if eq_text j k then some w else get k m

-- for subKey, subValue := range values { dst[subKey] = subValue }
unfoldable pub put_all : List (Text × Text) → Fields → Fields
put_all [] dst = dst
put_all ((k, v) ∷ values) dst = put_all values (put k (text v) dst)

-- A map[string]string as a value.
unfoldable pub string_fields : List (Text × Text) → Fields
string_fields [] = end
string_fields ((k, v) ∷ values) = field k (text v) (string_fields values)
