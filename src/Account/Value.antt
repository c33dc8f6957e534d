-- ===== src/Account/Value.antt =====
-- A Go value of type `interface{}` as the JSON decoder of the Near client makes it: what the code
-- tells apart is nil, a string, a map with string keys, and anything else.
use relayer2_public.Base.{String, Option, none, some, same_text, if◌then◌else◌, Run, done, panic}

mutual
  pub data Value : Type 0 where
    null other : Value
    text : String → Value
    dict : Fields → Value

  pub data Fields : Type 0 where
    end : Fields
    field : String → Value → Fields → Fields

-- `m[key]` with its second result.
abbrev pub get : String → Fields → Option Value
get key end = none
get key (field k v m) = if same_text k key then some v else get key m

-- The type assertion `v.(map[string]interface{})`, which panics on any other value.
abbrev pub as_map : Value → Run Fields
as_map (dict m) = done m
as_map _ = panic
