-- ===== src/Js/Json.antt =====
-- A JSON value, as the console holds one under the type `unknown`. `N` is the type of JavaScript
-- numbers. An object is the list of its own properties in the order of `Object.entries`.
use linkflow_v.Prelude.{String, Bool, List, [], ◌∷◌}

mutual
  pub data Json (N : Type 0) : Type 0 where
    null : Json N
    bool : Bool → Json N
    num : N → Json N
    str : String → Json N
    arr : Items N → Json N
    obj : Fields N → Json N

  pub data Items (N : Type 0) : Type 0 where
    nil : Items N
    cons : Json N → Items N → Items N

  pub data Fields (N : Type 0) : Type 0 where
    end : Fields N
    field : String → Json N → Fields N → Fields N

-- `Object.entries`.
abbrev pub entries : {N : Type 0} → Fields N → List (String × Json N)
entries end = []
entries (field k v o) = (k, v) ∷ entries o
