-- ===== src/ThingsModel/RoundTrip/Rows.antt =====
-- A reduction of rows to an object, taken back to rows and reduced again, for any kind of row.
use linkflow_v.Prelude.{
  ℕ, String, false, List, [], ◌∷◌, ◌==◌, ◌≡◌, refl, arith, Attempt, ok, >>=-eq-ok, Bool-cases, inl,
  inr,
}
use linkflow_v.Js.Json.{Json, Fields, end, field}
use linkflow_v.Js.Object.{put, assign}
use linkflow_v.Js.Object.Order.{
  IsOrdered, put-IsOrdered, append, append-end, append-field, assign-append,
}
use linkflow_v.Js.Text.{trim, trim_idem}
use linkflow_v.ThingsModel.Build.{reduce_rows}
use linkflow_v.ThingsModel.Read.{rows_of}

module _ {N : Type 0} {R : Type 0} (identifier : R → String) (define : R → Attempt (Json N))
    (make : String → Json N → ℕ → R × ℕ) where
  -- A value that its row builds again.
  abbrev pub IsStable : Json N → Type 0
  IsStable v = (k : String) (n : ℕ) → define (make k v n).0 ≡ ok v

  -- A key that a row can carry, with a stable value.
  pub record IsEntry (k : String) (v : Json N) : Type 0 where
    pub trimmed : trim k ≡ k
    pub nonempty : (k == "") ≡ false
    pub plain : (k == "__proto__") ≡ false
    pub stable : IsStable v

  abbrev pub AllEntries : Fields N → Type 0
  AllEntries end = Unit
  AllEntries (field k v o) = IsEntry k v × AllEntries o

  put-AllEntries :
      (k : String) (v : Json N) (o : Fields N) → IsEntry k v → AllEntries o → AllEntries (put k v o)
  unfolding put
  put-AllEntries k v end e h = (e, tt)
  put-AllEntries k v (field j w o) e (f, h) = ground (arith, put-AllEntries k v o e h)

  assign-AllEntries :
      (k : String) (v : Json N) (o : Fields N)
      → (trim k == "") ≡ false
      → IsStable v
      → AllEntries o
      → AllEntries (assign (trim k) v o)
  unfolding assign
  assign-AllEntries k v o ne st h = elim (Bool-cases (trim k == "__proto__")) [
    | inl p ↦ rw p h
    | inr p ↦ rw p (
        put-AllEntries (trim k) v o
          (record { trimmed = trim_idem k; nonempty = ne; plain = p; stable = st }) h)
  ]

  assign-IsOrdered :
      (k : String) (v : Json N) (o : Fields N) → IsOrdered o → IsOrdered (assign k v o)
  unfolding assign
  assign-IsOrdered k v o h = elim (Bool-cases (k == "__proto__")) [
    | inl p ↦ rw p h
    | inr p ↦ rw p (put-IsOrdered k v o h)
  ]

  -- Every value that a row defines is stable.
  module _ (stable : (row : R) (v : Json N) → define row ≡ ok v → IsStable v) where
    reduce_rows-AllEntries :
        (rows : List R) (acc o : Fields N)
        → AllEntries acc
        → IsOrdered acc
        → reduce_rows identifier define rows acc ≡ ok o
        → AllEntries o × IsOrdered o
    unfolding reduce_rows
    reduce_rows-AllEntries [] acc o h g e =
        let same : acc ≡ o = cc in (rw (← same) h, rw (← same) g)
    reduce_rows-AllEntries (row ∷ rows) acc o h g e =
        elim (Bool-cases (trim (identifier row) == "")) [
          | inl p ↦ reduce_rows-AllEntries rows acc o h g (rw (p, reduce_rows) at e)
          | inr p ↦
              let (v, made, rest) = >>=-eq-ok (define row) _ (rw (p, reduce_rows) at e) in
              reduce_rows-AllEntries rows (assign (trim (identifier row)) v acc) o
                (assign-AllEntries (identifier row) v acc p (stable row v made) h)
                (assign-IsOrdered (trim (identifier row)) v acc g) rest
        ]

    rebuild :
        (named : (k : String) (v : Json N) (n : ℕ) → identifier (make k v n).0 ≡ k)
        (o acc : Fields N) (n : ℕ)
        → AllEntries o
        → IsOrdered (append acc o)
        → reduce_rows identifier define (rows_of make o n).0 acc ≡ ok (append acc o)
    unfolding reduce_rows rows_of
    rebuild named end acc n h g = rw (append-end acc) refl
    rebuild named (field k v o) acc n (e, h) g =
        rw (named k v n, e.trimmed, e.nonempty)
          (rw (e.stable k n) (
            rw (assign-append acc k v o e.plain g, ← append-field acc k v o)
              (rebuild named o (append acc (field k v end)) (make k v n).1 h
                (rw (append-field acc k v o) g))))

    -- The object that rows reduce to comes back from the rows made of it.
    pub reduce_rows-rows_of :
        (named : (k : String) (v : Json N) (n : ℕ) → identifier (make k v n).0 ≡ k) (rows : List R)
        (o : Fields N) (n : ℕ)
        → reduce_rows identifier define rows end ≡ ok o
        → reduce_rows identifier define (rows_of make o n).0 end ≡ ok o
    reduce_rows-rows_of named rows o n e =
        let (h, g) = reduce_rows-AllEntries rows end o tt tt e in rebuild named o end n h g
