-- ===== src/Prelude/Json.antt =====
-- JSON values, as `JSON.parse` and the database client return them.
use Prim.Native.Nat.{ℕ, ◌+◌}
use Prim.Native.String.{String}
use mathlib.Core.Bool.{Bool, true, false, not}
use mathlib.Core.List.{[], ◌∷◌}
use attest.Prelude.Number.{Number, truthy_number}
use attest.Prelude.Text.{is_empty, decimal}
use attest.Prelude.Dict.{Dict}

mutual
  pub data Json : Type 0 where
    null : Json
    bool : Bool → Json
    num : Number → Json
    str : String → Json
    arr : Items → Json
    obj : Fields → Json

  pub data Items : Type 0 where
    nil : Items
    cons : Json → Items → Items

  pub data Fields : Type 0 where
    end : Fields
    field : String → Json → Fields → Fields

abbrev pub fields : Fields → Dict Json
fields end = []
fields (field k v rest) = (k, v) ∷ fields rest

abbrev pub to_fields : Dict Json → Fields
to_fields [] = end
to_fields ((k, v) ∷ rest) = field k v (to_fields rest)

-- `Boolean(v)`
unfoldable pub truthy : Json → Bool
unfolding truthy_number
truthy null = false
truthy (bool b) = b
truthy (num n) = truthy_number n
truthy (str s) = not (is_empty s)
truthy (arr _) = true
truthy (obj _) = true

spread_items : ℕ → Items → Dict Json
spread_items i nil = []
spread_items i (cons v rest) = (decimal i, v) ∷ spread_items (i + 1) rest

spread_text : ℕ → String → Dict Json
spread_text i String.[] = []
spread_text i (String.◌∷◌ c rest) =
    (decimal i, str (String.◌∷◌ c String.[])) ∷ spread_text (i + 1) rest

-- `{ ...v }`: an array and a text give their elements under their positions.
unfoldable pub spread : Json → Dict Json
unfolding spread_items spread_text decimal
spread null = []
spread (bool _) = []
spread (num _) = []
spread (str s) = spread_text 0 s
spread (arr items) = spread_items 0 items
spread (obj members) = fields members
