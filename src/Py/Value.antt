-- ===== src/Py/Value.antt =====
-- The values that `json.loads` returns, in which the stores keep their files and Chroma its metadata.
use project_nexus.Prelude.{◌≡◌, refl, ap, Bool, true, false, not, ◌||◌, List, [], ◌∷◌, String, ◌==◌}
use project_nexus.Prelude.Int.{ℤ, is_zero}
use project_nexus.Py.Dict.{Dict}
use project_nexus.Py.Text.{str_truthy}

mutual
  -- `float` holds the float's `repr`.
  pub data Value : Type 0 where
    null : Value
    bool : Bool → Value
    int : ℤ → Value
    float : String → Value
    str : String → Value
    obj : Fields → Value
    arr : Items → Value

  pub data Fields : Type 0 where
    end : Fields
    field : String → Value → Fields → Fields

  pub data Items : Type 0 where
    nil : Items
    cons : Value → Items → Items

-- The members of an object as a dict, and back.
abbrev pub entries : Fields → Dict Value
entries end = []
entries (field k v fs) = (k, v) ∷ entries fs

abbrev pub fields_of : Dict Value → Fields
fields_of [] = end
fields_of ((k, v) ∷ d) = field k v (fields_of d)

abbrev pub elements : Items → List Value
elements nil = []
elements (cons v vs) = v ∷ elements vs

abbrev pub items_of : List Value → Items
items_of [] = nil
items_of (v ∷ vs) = cons v (items_of vs)

pub entries-fields_of : (d : Dict Value) → entries (fields_of d) ≡ d
entries-fields_of [] = refl
entries-fields_of ((k, v) ∷ d) = ap (◌∷◌ (k, v)) (entries-fields_of d)

pub elements-items_of : (vs : List Value) → elements (items_of vs) ≡ vs
elements-items_of [] = refl
elements-items_of (v ∷ vs) = ap (◌∷◌ v) (elements-items_of vs)

-- bool(v)
unfoldable pub truthy : Value → Bool
truthy null = false
truthy (bool b) = b
truthy (int n) = not (is_zero n)
truthy (float r) = not (r == "0.0" || r == "-0.0")
truthy (str s) = str_truthy s
truthy (arr nil) = false
truthy (arr (cons v vs)) = true
truthy (obj end) = false
truthy (obj (field k v fs)) = true
