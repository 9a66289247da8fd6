-- ===== src/PagedList/Shows.antt =====
-- After any events the list of PagedList shows the answer to its own query.
use linkflow_v.Prelude.{
  ℕ, String, Bool, true, false, not, ◌&&◌, Option, none, some, List, [], ◌∷◌, ◌==◌, all, ◌≡◌, refl,
  sym, ap, subst, arith, eq_iff, Option-cases, inl, inr,
}
use linkflow_v.Answers.{Answer, answered, failed}
use linkflow_v.Services.Call.{PageResult}
use linkflow_v.PagedList.{
  Query, Listing, Event, ask, translate, load, answer, late, late_by_hand, same_query, item_at,
  without_item, show, ask_for, load_by_hand, effect_answered, by_hand_answered, step, run, mount,
}
use linkflow_v.PagedList.Fresh.{
  answered_query, shown, same_query-eq, fine, in_scope, answers_live, all_fine, asks, fresh_for,
  fresh, run_effect-fresh, commit-fresh, item_at-asks, without_item-asks, answered_query-scope,
}

module _ {A : Type 0} (skip : String → Bool) (answers : Query → PageResult A → Bool)
    (stable : (q : Query) (r : PageResult A)
      → answers q r ≡ true
      → answers (answered_query q r) r ≡ true) where
  show-fresh :
      (q : Query) (r : PageResult A) (s : Listing A)
      → (q.scope == s.query.scope) ≡ true
      → answers q r ≡ true
      → skip q.scope ≡ false
      → fresh_for skip answers none (show r s).query r ≡ true
  show-fresh q r s h k l =
      let e : skip s.query.scope ≡ false =
        subst (λ scope. skip scope ≡ false) ((eq_iff q.scope s.query.scope).0 h) l in
      let a : answers (answered_query s.query r) r ≡ true =
        subst (λ c. answers c r ≡ true) (answered_query-scope skip answers q s.query r h)
          (stable q r k) in
      rw e a

  -- What `fresh skip answers` says where the request under way is known.
  fresh-live :
      (s : Listing A) (l : Option Query)
      → fresh skip answers s ≡ true
      → s.live ≡ l
      → (fresh_for skip answers l s.query (shown s) ≡ true)
        × (all (asks skip answers) s.by_hand ≡ true)
  fresh-live s l h e = (
    subst (λ l. fresh_for skip answers l s.query (shown s) ≡ true) e (ground arith),
    ground arith,
  )

  effect_answered-fresh :
      (a : Answer (PageResult A)) (s : Listing A)
      → fresh skip answers s ≡ true
      → fine skip answers (answer a) s ≡ true
      → fresh skip answers (effect_answered skip a s) ≡ true
  unfolding effect_answered
  effect_answered-fresh (failed e) s h k = ground arith
  effect_answered-fresh (answered r) s h k = elim (Option-cases s.live) [
    | inl idle ↦ let (f, b) = fresh-live s none h idle in rw idle (rw (f, b) refl)
    | inr (q, e) ↦
        let (f, b) = fresh-live s (some q) h e in
        let same : q ≡ s.query = same_query-eq q s.query (ground arith) in
        let asked : skip q.scope ≡ false =
          subst (λ c. skip c.scope ≡ false) (sym same) (ground arith) in
        let here : (q.scope == s.query.scope) ≡ true =
          (eq_iff q.scope s.query.scope).1 (ap (λ c. c.scope) same) in
        let k' : answers q r ≡ true = subst (λ l. answers_live skip answers r l ≡ true) e k in
        rw e (
          commit-fresh skip answers s.query (show r (record s { live = none; loading = false }))
            (λ _. show-fresh q r s here k' asked) b)
  ]

  -- Where an answer leaves the query as it was, the request under way is still the current one.
  show-fresh_live :
      (q : Query) (r : PageResult A) (s : Listing A)
      → fresh skip answers s ≡ true
      → in_scope skip answers s r (some q) ≡ true
      → skip q.scope ≡ false
      → same_query s.query (show r s).query ≡ true
      → fresh_for skip answers s.live (show r s).query r ≡ true
  show-fresh_live q r s h k asked same =
      let here : (q.scope == s.query.scope) ≡ true = ground arith in
      let a : answers q r ≡ true = ground arith in
      elim (Option-cases s.live) [
        | inl idle ↦ rw idle (show-fresh q r s here a asked)
        | inr (q', e) ↦
            let (f, b) = fresh-live s (some q') h e in
            let f' : fresh_for skip answers (some q') (show r s).query r ≡ true =
              subst (λ c. (same_query q' c && not (skip c.scope)) ≡ true)
                (same_query-eq s.query (show r s).query same) f in
            rw e f'
      ]

  by_hand_answered-fresh :
      (n : ℕ) (a : Answer (PageResult A)) (s : Listing A)
      → fresh skip answers s ≡ true
      → fine skip answers (late_by_hand n a) s ≡ true
      → fresh skip answers (by_hand_answered skip n a s) ≡ true
  unfolding by_hand_answered
  by_hand_answered-fresh n (failed e) s h k =
      let b : all (asks skip answers) (without_item n s.by_hand) ≡ true =
        without_item-asks skip answers n s.by_hand (ground arith) in
      ground (arith, b)
  by_hand_answered-fresh n (answered r) s h k = elim (Option-cases (item_at n s.by_hand)) [
    | inl nothing ↦ rw (nothing, by_hand_answered) h
    | inr (q, e) ↦
        let b : all (asks skip answers) (without_item n s.by_hand) ≡ true =
          without_item-asks skip answers n s.by_hand (ground arith) in
        let k' : in_scope skip answers s r (some q) ≡ true =
          subst (λ o. in_scope skip answers s r o ≡ true) e k in
        let asked = item_at-asks skip answers n s.by_hand (ground arith) e in
        rw (e, by_hand_answered)
          (commit-fresh skip answers s.query
            (show r (record s { by_hand = without_item n s.by_hand; loading = false }))
            (show-fresh_live q r s h k' asked) b)
  ]

  load_by_hand-fresh :
      (q : Query) (s : Listing A)
      → fresh skip answers s ≡ true
      → fine skip answers (load q) s ≡ true
      → fresh skip answers (load_by_hand skip q s) ≡ true
  unfolding load_by_hand
  load_by_hand-fresh q s h k = ground arith

  step-fresh :
      (e : Event A) (s : Listing A)
      → fresh skip answers s ≡ true
      → fine skip answers e s ≡ true
      → fresh skip answers (step skip e s) ≡ true
  unfolding step ask_for
  step-fresh (ask q) s h k =
      commit-fresh skip answers s.query (record s { query = q })
        (λ same.
          subst
            (λ c.
              fresh_for skip answers s.live c
                (record (shown s) { page = c.page; page_size = c.page_size })
              ≡ true)
            (same_query-eq s.query q same) (ground arith))
        (ground arith)
  step-fresh translate s h k = run_effect-fresh skip answers s (ground arith)
  step-fresh (load q) s h k = load_by_hand-fresh q s h k
  step-fresh (answer a) s h k = effect_answered-fresh a s h k
  step-fresh (late n a) s h k = h
  step-fresh (late_by_hand n a) s h k = by_hand_answered-fresh n a s h k

  run-fresh :
      (es : List (Event A)) (s : Listing A)
      → fresh skip answers s ≡ true
      → all_fine skip answers es s ≡ true
      → fresh skip answers (run skip es s) ≡ true
  unfolding run
  run-fresh [] s h k = h
  run-fresh (e ∷ es) s h k =
      run-fresh es (step skip e s) (step-fresh e s h (ground arith)) (ground arith)

  mount-fresh : (q : Query) → fresh skip answers (mount skip q) ≡ true
  unfolding mount
  mount-fresh q =
      run_effect-fresh skip answers
        (record {
          rows = [];
          total = 0;
          query = q;
          loading = false;
          live = none;
          cancelled = [];
          by_hand = [];
        })
        refl

  fresh-answers :
      (here : Query) (r : PageResult A)
      → skip here.scope ≡ false
      → fresh_for skip answers none here r ≡ true
      → answers here r ≡ true
  fresh-answers here r k f = ground arith

  -- After events that meet the conditions below, the page shows the answer to its own query: where no request of the effect is pending and the scope is not skipped, the rows and the
  -- total are ones that the service gives for the tenant, the page and the size that the page has.
  -- The service is any relation `answers` between queries and answers in which a query for the page
  -- and size of an answer has that answer. Of the events it is assumed that the answers to the
  -- effect and to handlers are ones of the service, that the effect's requests do not fail, and
  -- that a handler's reading starts and is answered in the scope of the page; answers of cancelled
  -- runs are arbitrary.
  pub run-answers :
      (q : Query) (es : List (Event A))
      → all_fine skip answers es (mount skip q) ≡ true
      → (run skip es (mount skip q)).live ≡ none
      → skip (run skip es (mount skip q)).query.scope ≡ false
      → answers (run skip es (mount skip q)).query (shown (run skip es (mount skip q))) ≡ true
  run-answers q es h idle asked =
      let (f, b) =
        fresh-live (run skip es (mount skip q)) none (run-fresh es (mount skip q) (mount-fresh q) h)
          idle in
      fresh-answers _ _ asked f
