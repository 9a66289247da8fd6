-- ===== src/Js/Object/Laws.antt =====
-- Reading a property after a write.
use linkflow_v.Prelude.{◌≡◌, refl, ◌≢◌, String, some, arith, ◌==◌, eq_iff, eq_refl, if◌then◌else◌}
use linkflow_v.Js.Json.{Json, Fields, end, field}
use linkflow_v.Js.Object.{get, put, assign}

module _ {N : Type 0} where
  pub get-put :
      (k j : String) (v : Json N) (o : Fields N)
      → get j (put k v o) ≡ (if k == j then some v else get j o)
  unfolding get put
  get-put k j v end = refl
  get-put k j v (field i w o) = ground (arith, eq_iff i k, eq_iff i j, eq_iff k j, get-put k j v o)

  pub get-put_self : (k : String) (v : Json N) (o : Fields N) → get k (put k v o) ≡ some v
  get-put_self k v o = simp (get-put, eq_refl)

  pub get-assign :
      (k j : String) (v : Json N) (o : Fields N)
      → k ≢ "__proto__"
      → get j (assign k v o) ≡ (if k == j then some v else get j o)
  unfolding assign
  get-assign k j v o h = ground (arith, eq_iff k "__proto__", get-put k j v o)
