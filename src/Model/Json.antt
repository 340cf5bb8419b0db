-- ===== src/Model/Json.antt =====
-- The JSON values of a payload. A number is kept as its literal.
use task_mesh.Base.{Bool, Option, none, some, if◌then◌else◌}
use task_mesh.Text.{Text, same_text}

mutual
  pub data Json : Type 0 where
    null : Json
    boolean : Bool → Json
    number : Text → Json
    string : Text → Json
    array : Items → Json
    object : Fields → Json

  pub data Items : Type 0 where
    nil : Items
    item : Json → Items → Items

  pub data Fields : Type 0 where
    end : Fields
    field : Text → Json → Fields → Fields

-- `payload.get(key)`.
unfoldable pub get : Text → Fields → Option Json
get key end = none
get key (field name value rest) = if same_text name key then some value else get key rest
