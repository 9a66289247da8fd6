-- ===== src/PagedList/Settles.antt =====
-- When the reading of the list of PagedList comes to an end, and what the page says meanwhile.
use linkflow_v.Prelude.{
  String, Bool, true, false, Option, none, some, List, [], ◌∷◌, all, ◌≡◌, refl, sym, ap, ◌∙◌, subst,
  arith, Bool-cases, Option-cases, inl, inr,
}
use linkflow_v.Answers.{answered, failed}
use linkflow_v.Services.Call.{PageResult}
use linkflow_v.PagedList.{
  Query, Listing, Event, ask, translate, load, answer, late, late_by_hand, same_query, show, commit,
  ask_for, effect_answered, step, run,
}
use linkflow_v.PagedList.Fresh.{answered_query, shown, same_query-eq, same_query_refl}

module _ {A : Type 0} (skip : String → Bool) (server : Query → PageResult A) where
  -- The service answers the request under way.
  abbrev pub deliver : Listing A → Listing A
  deliver s = elim s.live [ none ↦ s | some q ↦ effect_answered skip (answered (server q)) s ]

  deliver-none : (s : Listing A) → s.live ≡ none → deliver s ≡ s
  deliver-none s e =
      ap
        (λ o. elim o as (λ o. Listing A) [
          | none ↦ s
          | some q ↦ effect_answered skip (answered (server q)) s
        ])
        e

  deliver-some :
      (s : Listing A) {q : Query}
      → s.live ≡ some q
      → deliver s
        ≡ commit skip s.query (show (server q) (record s { live = none; loading = false }))
  unfolding effect_answered
  deliver-some s {q} e =
      ap
        (λ o. elim o as (λ o. Listing A) [
          | none ↦ s
          | some q ↦ effect_answered skip (answered (server q)) s
        ])
        e
      ∙ ap
          (λ o. elim o as (λ o. Listing A) [
            | none ↦ s
            | some q' ↦
                commit skip s.query (show (server q) (record s { live = none; loading = false }))
          ])
          e

  abbrev IsSettled : Listing A → Type 0
  IsSettled s = (s.live ≡ none) × (s.loading ≡ false) × (shown s ≡ server s.query)

  -- An answer that leaves the query as it is settles the page; another one asks again.
  deliver-settles :
      (s : Listing A)
      → s.live ≡ some s.query
      → same_query s.query (answered_query s.query (server s.query)) ≡ true
      → IsSettled (deliver s)
  deliver-settles s e same = rw (deliver-some s e) (
      rw same (
        refl,
        refl,
        ap server (same_query-eq s.query (answered_query s.query (server s.query)) same),
      ))

  deliver-asks :
      (s : Listing A)
      → s.live ≡ some s.query
      → skip s.query.scope ≡ false
      → same_query s.query (answered_query s.query (server s.query)) ≡ false
      → ((deliver s).live ≡ some (deliver s).query)
        × ((deliver s).query ≡ answered_query s.query (server s.query))
  deliver-asks s e k other = rw (deliver-some s e) (rw (other, k) (refl, refl))

  deliver-IsSettled : (s : Listing A) → IsSettled s → IsSettled (deliver s)
  deliver-IsSettled s h = subst IsSettled (sym (deliver-none s h.0)) h

  deliver-scope : (s : Listing A) → (deliver s).query.scope ≡ s.query.scope
  deliver-scope s = elim (Option-cases s.live) [
    | inl idle ↦ rw (deliver-none s idle) refl
    | inr (q, e) ↦ rw (deliver-some s e) (ground arith)
  ]

  deliver-twice :
      ((q : Query)
        → answered_query (answered_query q (server q)) (server (answered_query q (server q)))
          ≡ answered_query q (server q))
      → (s : Listing A) → s.live ≡ some s.query
      → skip s.query.scope ≡ false
      → IsSettled (deliver (deliver s))
  deliver-twice normal s e k =
      let next = answered_query s.query (server s.query) in
      elim (Bool-cases (same_query s.query next)) [
        | inl same ↦ deliver-IsSettled (deliver s) (deliver-settles s e same)
        | inr other ↦
            let (l, asked) = deliver-asks s e k other in
            deliver-settles (deliver s) l (
              subst (λ q. same_query q (answered_query q (server q)) ≡ true) (sym asked)
                (subst (λ c. same_query next c ≡ true) (sym (normal s.query))
                  (same_query_refl next)))
      ]

  -- A request of the effect comes to an end after at most two answers of the service, whatever else
  -- is pending: then no request of the effect is pending, the page does not say that it loads, and
  -- it shows the answer to its own query, with the scope that it had. The service answers each query
  -- with one answer, and a query for the page and the size of an answer has an answer with the same
  -- page and size; the scope is not skipped.
  pub deliver-deliver :
      ((q : Query)
        → answered_query (answered_query q (server q)) (server (answered_query q (server q)))
          ≡ answered_query q (server q))
      → (s : Listing A) → s.live ≡ some s.query
      → skip s.query.scope ≡ false
      → ((deliver (deliver s)).live ≡ none)
        × ((deliver (deliver s)).loading ≡ false)
        × (shown (deliver (deliver s)) ≡ server (deliver (deliver s)).query)
        × ((deliver (deliver s)).query.scope ≡ s.query.scope)
  deliver-deliver normal s e k =
      let (l, b, r) = deliver-twice normal s e k in
      (l, b, r, deliver-scope (deliver s) ∙ deliver-scope s)

abbrev pub never : String → Bool
never scope = false

abbrev pub is_some : Option Query → Bool
is_some none = false
is_some (some q) = true

-- The pages of a list that is never skipped and that handlers never read.
module _ {A : Type 0} where
  abbrev pub by_effect : Event A → Bool
  by_effect (load q) = false
  by_effect (late_by_hand n a) = false
  by_effect (ask q) = true
  by_effect translate = true
  by_effect (answer a) = true
  by_effect (late n a) = true

  step-loading :
      (e : Event A) (s : Listing A)
      → by_effect e ≡ true
      → s.loading ≡ is_some s.live
      → (step never e s).loading ≡ is_some (step never e s).live
  unfolding step ask_for effect_answered
  step-loading (ask q) s h k = ground arith
  step-loading translate s h k = ground arith
  step-loading (load q) s h k = cc
  step-loading (answer (answered r)) s h k = elim (Option-cases s.live) [
    | inl idle ↦ rw idle (k ∙ ap is_some idle)
    | inr (q, e) ↦ rw e (ground arith)
  ]
  step-loading (answer (failed r)) s h k = elim (Option-cases s.live) [
    | inl idle ↦ rw idle (k ∙ ap is_some idle)
    | inr (q, e) ↦ rw e refl
  ]
  step-loading (late n a) s h k = k
  step-loading (late_by_hand n a) s h k = cc

  -- On a page without a tenant that only the effect reads, the page says that it loads exactly while
  -- the last request of the effect is pending, after any events with any answers and failures.
  pub run-loading :
      (es : List (Event A)) (s : Listing A)
      → all by_effect es ≡ true
      → s.loading ≡ is_some s.live
      → (run never es s).loading ≡ is_some (run never es s).live
  unfolding run
  run-loading [] s h k = k
  run-loading (e ∷ es) s h k =
      run-loading es (step never e s) (ground arith) (step-loading e s (ground arith) k)
