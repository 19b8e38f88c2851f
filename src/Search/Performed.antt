-- ===== src/Search/Performed.antt =====
-- search/manager.go: what a search finds, whatever the order in which its goroutines run.
use mathlib.Core.Path.{subst, ap₂}
use mathlib.Core.List.{Perm, perm_middle}
use mathlib.Core.List.Perm
use mediarr.Common.{
  if◌then◌else◌, Bool-cases, nat_eq, string_eq, lookup, ℕ, zero, suc, String, ◌≡◌, refl, sym, ap,
  ◌∙◌, inl, inr, Bool, true, false, Option, none, some, List, [], ◌∷◌, ◌++◌, map, append_assoc,
  append-nil, lookup-insert_self, lookup-delete_self,
}
use mediarr.Common.Time.{Time}
use mediarr.Common.ExchangeSort.{IsSorted}
use mediarr.Indexer.Client
use mediarr.Indexer.Client.{Category, Indexer, IndexerConfig}
use mediarr.Indexer.SearchLimiter
use mediarr.Search.{
  MediaType, SearchResult, SearchSession, Manager, add_result, before, sort_results,
  media_type_to_category, session_at, get_session, clear_session, new_session, open_session,
}
use mediarr.Search.Order.{before-IsOrder, IsSort}
use mediarr.Search.Steps.{
  Task, asking, waiting, searching, adding, Searching, to_result, answered, advance, step_at, run,
  tasks_of, all_done, searched, performed, perform_search, search_all,
}

append_swap : {A : Type 0} (xs ys zs : List A) → Perm (xs ++ (ys ++ zs)) (ys ++ (xs ++ zs))
append_swap [] ys zs = Perm.refl _
append_swap (x ∷ xs) ys zs =
    Perm.trans (Perm.cons x (append_swap xs ys zs)) (Perm.symm (perm_middle ys (xs ++ zs)))

-- The results that an indexer answers with; none where its search is an error.
abbrev pub results_of : IndexerConfig → Option (List Client.SearchResult) → List SearchResult
results_of config none = []
results_of config (some results) = map (to_result config) results

module _ (query : String) (category : Category) where
  unfoldable pub answer_of : Indexer → List SearchResult
  answer_of idx = results_of idx.config (idx.search query category 50)

  -- The answers of the indexers that are enabled.
  unfoldable pub all_answers : List (ℕ × Indexer) → List SearchResult
  all_answers [] = []
  all_answers ((i, idx) ∷ indexers) =
      let rest = all_answers indexers in if idx.config.enabled then answer_of idx ++ rest else rest

  -- What a goroutine has still to add.
  unfoldable to_add : Task → List SearchResult
  to_add (asking idx) = answer_of idx
  to_add (waiting idx) = answer_of idx
  to_add (searching idx) = answer_of idx
  to_add (adding rs) = rs

  unfoldable all_to_add : List Task → List SearchResult
  unfolding to_add
  all_to_add [] = []
  all_to_add (t ∷ ts) = to_add t ++ all_to_add ts

  answered_lem :
      (s : Searching) (config : IndexerConfig) (o : Option (List Client.SearchResult)) (now : Time)
      → ((answered s config o now).0.session.results ≡ s.session.results)
        × (to_add (answered s config o now).1 ≡ results_of config o)
  unfolding answered to_add
  answered_lem s config none now = (refl, refl)
  answered_lem s config (some results) now = (refl, refl)

  asked_lem :
      (b : Bool) (idx : Indexer) → to_add (if b then searching idx else waiting idx) ≡ answer_of idx
  unfolding to_add
  asked_lem true idx = refl
  asked_lem false idx = refl

  advance_lem :
      (s : Searching) (t : Task) (now : Time)
      → let (u, t') = advance query category s t now in
        u.session.results ++ to_add t' ≡ s.session.results ++ to_add t
  unfolding advance to_add
  advance_lem s (asking idx) now =
      ap (λ r. s.session.results ++ r)
        (asked_lem (SearchLimiter.allow s.limiter idx.config.id now).1 idx)
  advance_lem s (waiting idx) now = refl
  advance_lem s (searching idx) now =
      let (p, q) = answered_lem s idx.config (idx.search query category 50) now in
      ap₂ (λ a b. a ++ b) p (q ∙ unfold answer_of in refl)
  advance_lem s (adding []) now = refl
  advance_lem s (adding (r ∷ rs)) now =
      unfold add_result in append_assoc s.session.results (r ∷ []) rs

  step_at_lem :
      (k : ℕ) (s : Searching) (ts : List Task) (now : Time)
      → let (u, us) = step_at query category k s ts now in
        Perm (s.session.results ++ all_to_add ts) (u.session.results ++ all_to_add us)
  unfolding step_at all_to_add
  step_at_lem k s [] now = Perm.refl _
  step_at_lem zero s (t ∷ ts) now =
      let (u, t') = advance query category s t now in
      let rest = all_to_add ts in
      subst (λ l. Perm (s.session.results ++ (to_add t ++ rest)) l)
        (sym (append_assoc s.session.results (to_add t) rest)
          ∙ ap (λ l. l ++ rest) (sym (advance_lem s t now))
          ∙ append_assoc u.session.results (to_add t') rest)
        (Perm.refl _)
  step_at_lem (suc k) s (t ∷ ts) now =
      let (u, us) = step_at query category k s ts now in
      Perm.trans (append_swap s.session.results (to_add t) (all_to_add ts)) (
        Perm.trans (Perm.append_left (to_add t) (step_at_lem k s ts now))
          (Perm.symm (append_swap u.session.results (to_add t) (all_to_add us))))

  run_lem :
      (s : Searching) (ts : List Task) (schedule : List (ℕ × Time))
      → let (u, us) = run query category s ts schedule in
        Perm (s.session.results ++ all_to_add ts) (u.session.results ++ all_to_add us)
  unfolding run
  run_lem s ts [] = Perm.refl _
  run_lem s ts ((k, now) ∷ schedule) =
      let (u, us) = step_at query category k s ts now in
      Perm.trans (step_at_lem k s ts now) (run_lem u us schedule)

  tasks_of_lem :
      (indexers : List (ℕ × Indexer)) → all_to_add (tasks_of indexers) ≡ all_answers indexers
  unfolding tasks_of all_to_add all_answers to_add
  tasks_of_lem [] = refl
  tasks_of_lem ((i, idx) ∷ indexers) = elim (Bool-cases idx.config.enabled) [
    | inl on ↦ rw (on, tasks_of_lem indexers) refl
    | inr off ↦ rw (off, tasks_of_lem indexers) refl
  ]

  all_done_lem : (ts : List Task) → all_done ts ≡ true → all_to_add ts ≡ []
  unfolding all_done all_to_add to_add
  all_done_lem [] e = refl
  all_done_lem (adding [] ∷ ts) e = all_done_lem ts e
  all_done_lem (adding (r ∷ rs) ∷ ts) e = absurd cc
  all_done_lem (asking idx ∷ ts) e = absurd cc
  all_done_lem (waiting idx ∷ ts) e = absurd cc
  all_done_lem (searching idx ∷ ts) e = absurd cc

searched_lem :
    (m : Manager) (session : SearchSession) (schedule : List (ℕ × Time))
    → all_done (searched m session schedule).1 ≡ true
    → Perm
        (session.results
          ++ all_answers session.query (media_type_to_category session.media_type) m.indexers)
        (searched m session schedule).0.session.results
unfolding searched
searched_lem m session schedule e =
    let query = session.query in
    let category = media_type_to_category session.media_type in
    let s : Searching = record { limiter = m.limiter; session = session } in
    let (u, us) = run query category s (tasks_of m.indexers) schedule in
    subst (λ l. Perm (session.results ++ l) u.session.results)
      (tasks_of_lem query category m.indexers)
      (subst (λ l. Perm (session.results ++ all_to_add query category (tasks_of m.indexers)) l)
        (ap (λ l. u.session.results ++ l) (all_done_lem query category us e)
          ∙ append-nil u.session.results)
        (run_lem query category s (tasks_of m.indexers) schedule))

module _ (sort_slice : (SearchResult → SearchResult → Bool) → List SearchResult → List SearchResult)
    (sorts : IsSort sort_slice) where
  -- The session that a pointer stands for holds the results and the answers in their order, and the
  -- table of the sessions is as it was.
  pub perform_search_lem :
      (m : Manager) (p : ℕ) (session : SearchSession) (schedule : List (ℕ × Time))
      → lookup p m.sessions ≡ some session
      → all_done (searched m session schedule).1 ≡ true
      → let u = perform_search sort_slice m p schedule in
        (after : SearchSession) × (lookup p u.sessions ≡ some after)
        × Perm
            (session.results
              ++ all_answers session.query (media_type_to_category session.media_type) m.indexers)
            after.results
        × IsSorted (λ a b. before b a) after.results
        × (u.results ≡ m.results)
  unfolding perform_search performed sort_results
  perform_search_lem m p session schedule here e =
      let s = (searched m session schedule).0 in
      let after = sort_results sort_slice s.session in
      let done = ap (performed sort_slice m p schedule) here in
      (
        after,
        ap (λ u. lookup p u.sessions) done ∙ lookup-insert_self p after m.sessions,
        Perm.trans (searched_lem m session schedule e) (sorts.same before s.session.results),
        sorts.in_order before s.session.results before-IsOrder,
        ap (λ u. u.results) done,
      )

-- `SearchAll`, whatever the order in which the goroutines of its search run, when all of them are done:
-- the session is found under its identifier with all the answers of the indexers that are enabled,
-- each as often as it was given, in an order in which no result stands behind one that it comes
-- before. Where the session was cleared while the search ran, it stays gone, and `GetSession` gives no
-- session and still reports true.
pub search_all_lem :
    (sort_slice : (SearchResult → SearchResult → Bool) → List SearchResult → List SearchResult)
    (m : Manager) (id query : String) (media_type : MediaType) (media_id : ℕ) (now : Time)
    (schedule : List (ℕ × Time))
    → IsSort sort_slice
    → all_done (searched m (new_session id query media_type media_id now) schedule).1 ≡ true
    → let (opened, p) = open_session m id query media_type media_id now in
      let u = search_all sort_slice m id query media_type media_id now schedule in
      let cleared = perform_search sort_slice (clear_session opened id) p schedule in
      (after : SearchSession) × (get_session u id ≡ (some after, true))
      × Perm (all_answers query (media_type_to_category media_type) m.indexers) after.results
      × IsSorted (λ a b. before b a) after.results
      × (get_session cleared id ≡ (none, true))
unfolding search_all open_session get_session clear_session
search_all_lem sort_slice m id query media_type media_id now schedule sorts e =
    let session = new_session id query media_type media_id now in
    let (opened, p) = open_session m id query media_type media_id now in
    let there = lookup-insert_self m.next session m.sessions in
    let (after, found, same, sorted, kept) =
      perform_search_lem sort_slice sorts opened p session schedule there e in
    let (after2, found2, same2, sorted2, kept2) =
      perform_search_lem sort_slice sorts (clear_session opened id) p session schedule there e in
    let u = perform_search sort_slice opened p schedule in
    let v = perform_search sort_slice (clear_session opened id) p schedule in
    (
      after,
      ap (λ o. (session_at u o, true))
            (ap (lookup id) kept ∙ lookup-insert_self id m.next m.results)
          ∙ ap (λ o. (o, true)) found,
      same,
      sorted,
      ap (λ o. (session_at v o, true))
          (ap (lookup id) kept2 ∙ lookup-delete_self id opened.results),
    )
