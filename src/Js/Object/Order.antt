-- ===== src/Js/Object/Order.antt =====
-- The order of an object's keys, and how an object is built again from its entries.
use linkflow_v.Prelude.{
  ℕ, ◌≡◌, refl, ◌≢◌, ap, String, true, false, Option, none, some, arith, ◌==◌, eq_iff, inl, inr,
  Bool-cases,
}
use linkflow_v.Js.Json.{Json, Fields, end, field}
use linkflow_v.Js.Object.{put, assign, comes_before, array_index, index_before}

index_before_chain :
    (k j i : Option ℕ)
    → index_before k j ≡ true
    → index_before i j ≡ false
    → (index_before i k ≡ false) × (k ≢ i) × (index_before j k ≡ false) × (k ≢ j)
index_before_chain none j i h g = cc
index_before_chain (some a) none none h g = ground arith
index_before_chain (some a) none (some c) h g = cc
index_before_chain (some a) (some b) none h g = ground arith
index_before_chain (some a) (some b) (some c) h g = ground arith

-- A new key `k` that comes before `j` may stand before `j` and before all that follows it.
comes_before_chain :
    (k j i : String)
    → comes_before k j ≡ true
    → comes_before i j ≡ false
    → ((k == i) ≡ false)
      × (comes_before i k ≡ false)
      × ((k == j) ≡ false)
      × (comes_before j k ≡ false)
unfolding comes_before
comes_before_chain k j i h g =
    let (a, b, c, d) = index_before_chain (array_index k) (array_index j) (array_index i) h g in
    (
      elim (Bool-cases (k == i)) [
        | inl e ↦ absurd (b (ap array_index ((eq_iff k i).0 e)))
        | inr e ↦ e
      ],
      a,
      elim (Bool-cases (k == j)) [
        | inl e ↦ absurd (d (ap array_index ((eq_iff k j).0 e)))
        | inr e ↦ e
      ],
      c,
    )

index_before_irrefl : (a : Option ℕ) → index_before a a ≡ false
index_before_irrefl none = refl
index_before_irrefl (some n) = ground arith

comes_before_irrefl : (j : String) → comes_before j j ≡ false
unfolding comes_before
comes_before_irrefl j = index_before_irrefl (array_index j)

module _ {N : Type 0} where
  -- The key `j` may stand before all keys of `o`, and is none of them.
  abbrev pub Precedes : String → Fields N → Type 0
  Precedes j end = Unit
  Precedes j (field k v o) = ((j == k) ≡ false) × (comes_before k j ≡ false) × Precedes j o

  -- The keys are distinct, and in the order of `Object.entries`.
  abbrev pub IsOrdered : Fields N → Type 0
  IsOrdered end = Unit
  IsOrdered (field k v o) = Precedes k o × IsOrdered o

  put-Precedes :
      (j k : String) (v : Json N) (o : Fields N)
      → (j == k) ≡ false
      → comes_before k j ≡ false
      → Precedes j o
      → Precedes j (put k v o)
  unfolding put
  put-Precedes j k v end h g p = (h, g, tt)
  put-Precedes j k v (field i w o) h g (a, b, p) = ground (arith, put-Precedes j k v o h g p)

  Precedes-before :
      (k j : String) (w : Json N) (o : Fields N)
      → comes_before k j ≡ true
      → Precedes j o
      → Precedes k (field j w o)
  Precedes-before k j w end c p =
      let chain = comes_before_chain k j j c (comes_before_irrefl j) in (chain.2, chain.3, tt)
  Precedes-before k j w (field i x o) c (a, b, p) =
      let chain = comes_before_chain k j i c b in
      (chain.2, chain.3, (chain.0, chain.1, (Precedes-before k j w o c p).2))

  pub put-IsOrdered : (k : String) (v : Json N) (o : Fields N) → IsOrdered o → IsOrdered (put k v o)
  unfolding put
  put-IsOrdered k v end h = (tt, tt)
  put-IsOrdered k v (field j w o) (p, h) = elim (Bool-cases (j == k)) [
    | inl e ↦ rw e (rw (← (eq_iff j k).0 e) p, h)
    | inr ne ↦ elim (Bool-cases (comes_before k j)) [
      | inl c ↦ rw (ne, c) (Precedes-before k j w o c p, (p, h))
      | inr c ↦ rw (ne, c) (put-Precedes j k v o ne c p, put-IsOrdered k v o h)
    ]
  ]

  -- An object followed by another.
  abbrev pub append : Fields N → Fields N → Fields N
  append end p = p
  append (field k v o) p = field k v (append o p)

  pub append-end : (o : Fields N) → append o end ≡ o
  append-end end = refl
  append-end (field k v o) = ap (λ q. field k v q) (append-end o)

  pub append-field :
      (o : Fields N) (k : String) (v : Json N) (p : Fields N)
      → append (append o (field k v end)) p ≡ append o (field k v p)
  append-field end k v p = refl
  append-field (field j w o) k v p = ap (λ q. field j w q) (append-field o k v p)

  Precedes-append :
      (j k : String) (o : Fields N) (v : Json N) (p : Fields N)
      → Precedes j (append o (field k v p))
      → ((j == k) ≡ false) × (comes_before k j ≡ false)
  Precedes-append j k end v p (a, b, h) = (a, b)
  Precedes-append j k (field i w o) v p (a, b, h) = Precedes-append j k o v p h

  -- In an ordered object each key is put behind those before it.
  pub put-append :
      (o : Fields N) (k : String) (v : Json N) (p : Fields N)
      → IsOrdered (append o (field k v p))
      → put k v o ≡ append o (field k v end)
  unfolding put
  put-append end k v p h = refl
  put-append (field j w o) k v p (h, hs) =
      let (ne, c) = Precedes-append j k o v p h in
      rw (ne, c) (ap (λ q. field j w q) (put-append o k v p hs))

  -- So is it by an assignment, to a key other than `__proto__`.
  pub assign-append :
      (o : Fields N) (k : String) (v : Json N) (p : Fields N)
      → (k == "__proto__") ≡ false
      → IsOrdered (append o (field k v p))
      → assign k v o ≡ append o (field k v end)
  unfolding assign
  assign-append o k v p ne h = rw ne (put-append o k v p h)
