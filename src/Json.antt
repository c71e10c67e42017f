-- ===== src/Json.antt =====
-- JSON values, as `JSON.parse` returns them and `JSON.stringify` takes them, and the reads of a
-- field that the package makes.
use wiregrid.Base.{
  ℕ, String, ◌≡◌, ◌≢◌, Bool, true, false, ite, Option, none, some, arith, String_discrete,
}

-- `num` is a number that is a natural, `other_num` any other, by its text.
mutual
  pub data Json : Type 0 where
    null : Json
    bool : Bool → Json
    num : ℕ → Json
    other_num : String → Json
    str : String → Json
    arr : Items → Json
    obj : Fields → Json

  pub data Items : Type 0 where
    nil : Items
    cons : Json → Items → Items

  pub data Fields : Type 0 where
    end : Fields
    field : String → Json → Fields → Fields

-- `o.name`; `none` is undefined.
unfoldable pub get_field : String → Fields → Option Json
get_field name end = none
get_field name (field key v rest) = ite (String_discrete key name) (some v) (get_field name rest)

-- `{ ...o, name: v }`: a name that is there keeps its place.
unfoldable pub set_field : String → Json → Fields → Fields
set_field name v end = field name v end
set_field name v (field key w rest) =
    ite (String_discrete key name) (field key v rest) (field key w (set_field name v rest))

-- Whether the field holds this text.
abbrev pub is_str : String → Option Json → Bool
is_str s (some (str t)) = elim (String_discrete t s) [ yes p ↦ true | no p ↦ false ]
is_str s _ = false

pub get_field-set_field_self :
    (name : String) (v : Json) (o : Fields) → get_field name (set_field name v o) ≡ some v
unfolding get_field set_field
get_field-set_field_self name v end = ground arith
get_field-set_field_self name v (field key w rest) =
    ground (arith, get_field-set_field_self name v rest)

pub get_field-set_field_ne :
    (name other : String) (v : Json) (o : Fields)
    → other ≢ name
    → get_field other (set_field name v o) ≡ get_field other o
unfolding get_field set_field
get_field-set_field_ne name other v end h = ground arith
get_field-set_field_ne name other v (field key w rest) h =
    ground (arith, get_field-set_field_ne name other v rest)

pub is_str→eq : (s : String) (o : Option Json) → is_str s o ≡ true → o ≡ some (str s)
is_str→eq s (some (str t)) h = ground arith
is_str→eq s _ h = absurd (ground arith)
