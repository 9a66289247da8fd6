-- ===== src/PagedList/Fresh.antt =====
-- What the list of PagedList shows: the service's answer to what the page asks for.
use linkflow_v.Prelude.{
  ℕ, zero, suc, String, Bool, true, false, not, ◌&&◌, Option, none, some, List, [], ◌∷◌, ◌==◌, eqb,
  all, ◌≡◌, refl, ap, arith, eq_iff, eq_refl, if◌then◌else◌, Bool-cases, inl, inr,
}
use linkflow_v.Answers.{answered, failed}
use linkflow_v.Services.Call.{PageResult}
use linkflow_v.PagedList.{
  Query, Listing, Event, ask, translate, load, answer, late, late_by_hand, same_query, item_at,
  without_item, run_effect, commit, step,
}

-- The query that an answer leaves in the page, and the answer that a page shows.
abbrev pub answered_query : {A : Type 0} → Query → PageResult A → Query
answered_query q r = record q { page = r.page; page_size = r.page_size }

abbrev pub shown : {A : Type 0} → Listing A → PageResult A
shown s = record {
  items = s.rows;
  total = s.total;
  page = s.query.page;
  page_size = s.query.page_size;
}

abbrev pub is_nil : {A : Type 0} → List A → Bool
is_nil [] = true
is_nil (x ∷ xs) = false

pub same_query_refl : (q : Query) → same_query q q ≡ true
same_query_refl q = rw (eq_refl q.scope) ground arith

pub same_query-eq : (q c : Query) → same_query q c ≡ true → q ≡ c
same_query-eq q c h =
    let p : q.scope ≡ c.scope = ground (arith, (eq_iff q.scope c.scope).0) in
    let m : q.page ≡ c.page = ground arith in let n : q.page_size ≡ c.page_size = ground arith in cc

module _ {A : Type 0} (skip : String → Bool) (answers : Query → PageResult A → Bool) where
  -- A reading of a handler is answered while the page still has its scope.
  abbrev pub in_scope : Listing A → PageResult A → Option Query → Bool
  in_scope s r none = true
  in_scope s r (some q) = q.scope == s.query.scope && answers q r

  abbrev pub answers_live : PageResult A → Option Query → Bool
  answers_live r none = true
  answers_live r (some q) = answers q r

  -- What is asked of an event: the service answers what it was asked and does not fail the effect,
  -- and a handler's reading starts and ends in the scope of the page.
  abbrev pub fine : Event A → Listing A → Bool
  fine (ask q) s = true
  fine translate s = true
  fine (load q) s = if skip q.scope then skip s.query.scope else true
  fine (answer (answered r)) s = answers_live r s.live
  fine (answer (failed e)) s = false
  fine (late n a) s = true
  fine (late_by_hand n (answered r)) s = in_scope s r (item_at n s.by_hand)
  fine (late_by_hand n (failed e)) s = true

  abbrev pub all_fine : List (Event A) → Listing A → Bool
  all_fine [] s = true
  all_fine (e ∷ es) s = fine e s && all_fine es (step skip e s)

  -- No request of a handler is about a scope that is skipped.
  abbrev pub asks : Query → Bool
  asks q = not (skip q.scope)

  -- The request under way is the current one; if there is none, the rows are an answer to it.
  abbrev pub fresh_for : Option Query → Query → PageResult A → Bool
  fresh_for (some q) here r = same_query q here && not (skip here.scope)
  fresh_for none here r =
      if skip here.scope then is_nil r.items && eqb r.total 0 else answers here r

  abbrev pub fresh : Listing A → Bool
  fresh s = fresh_for s.live s.query (shown s) && all asks s.by_hand

  pub run_effect-fresh :
      (s : Listing A) → all asks s.by_hand ≡ true → fresh (run_effect skip s) ≡ true
  run_effect-fresh s h = elim (Bool-cases (skip s.query.scope)) [
    | inl skipped ↦ rw (skipped, h) (rw skipped refl)
    | inr asked ↦ rw (asked, same_query_refl s.query, h) (rw asked refl)
  ]

  pub commit-fresh :
      (before : Query) (s : Listing A)
      → (same_query before s.query ≡ true → fresh_for s.live s.query (shown s) ≡ true)
      → all asks s.by_hand ≡ true
      → fresh (commit skip before s) ≡ true
  commit-fresh before s h k = elim (Bool-cases (same_query before s.query)) [
    | inl same ↦ rw (same, h same, k) refl
    | inr other ↦ rw other (run_effect-fresh s k)
  ]

  pub item_at-asks :
      (n : ℕ) (qs : List Query) {q : Query}
      → all asks qs ≡ true
      → item_at n qs ≡ some q
      → skip q.scope ≡ false
  item_at-asks n [] h k = cc
  item_at-asks zero (q' ∷ qs) h k = ground arith
  item_at-asks (suc n) (q' ∷ qs) h k = item_at-asks n qs (ground arith) k

  pub without_item-asks :
      (n : ℕ) (qs : List Query) → all asks qs ≡ true → all asks (without_item n qs) ≡ true
  without_item-asks n [] h = refl
  without_item-asks zero (q' ∷ qs) h = ground arith
  without_item-asks (suc n) (q' ∷ qs) h = ground (arith, without_item-asks n qs)

  pub answered_query-scope :
      (q c : Query) (r : PageResult A)
      → (q.scope == c.scope) ≡ true
      → answered_query q r ≡ answered_query c r
  answered_query-scope q c r h =
      ap (λ scope. record { scope = scope; page = r.page; page_size = r.page_size })
        ((eq_iff q.scope c.scope).0 h)
