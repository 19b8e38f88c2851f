-- ===== src/Search/Queue.antt =====
-- search/manager.go: the requests that wait in the queue, and a session that is gone.
use mathlib.Core.Path.{subst}
use mediarr.Common.{
  ltb, Bool-cases, length, take, length-append, nat_eq, string_eq, ℕ, zero, suc, ◌+◌, ◌-◌, ◌≤◌, ◌≡◌,
  refl, sym, ap, ◌∙◌, inl, inr, true, false, List, [], ◌∷◌, ◌++◌, append_assoc, append-nil, arith,
}
use mediarr.Common.Result.{Result, ok}
use mediarr.Search.{DownloadRequest, Manager, queue_download}

-- The manager after some requests, and what the calls have returned.
unfoldable pub queue_all : Manager → List DownloadRequest → Manager × List (Result (Unit {0}))
queue_all m [] = (m, [])
queue_all m (req ∷ reqs) =
    let (u, r) = queue_download m req in let (v, rs) = queue_all u reqs in (v, r ∷ rs)

abbrev pub AllOk : List (Result (Unit {0})) → Type 0
AllOk [] = Unit
AllOk (r ∷ rs) = (r ≡ ok tt) × AllOk rs

module _ (m : Manager) (req : DownloadRequest) where
  -- The manager when the request has been sent.
  abbrev sent_to : Manager
  sent_to = record m {
    download_queue = record m.download_queue { sent = m.download_queue.sent ++ req ∷ [] };
  }

  queue_download_room :
      ltb (length m.download_queue.sent) m.download_queue.capacity ≡ true
      → queue_download m req ≡ (sent_to, ok tt)
  unfolding queue_download
  queue_download_room e = rw e refl

  queue_download_full :
      ltb (length m.download_queue.sent) m.download_queue.capacity ≡ false
      → queue_download m req ≡ (m, ok tt)
  unfolding queue_download
  queue_download_full e = rw e refl

-- The requests that there is room for are kept, and every call reports success.
abbrev Kept : Manager → List DownloadRequest → Manager × List (Result (Unit {0})) → Type 0
Kept m reqs r =
    (r.0.download_queue.sent
      ≡ m.download_queue.sent
        ++ take (m.download_queue.capacity - length m.download_queue.sent) reqs)
    × AllOk r.1
    × (length r.1 ≡ length reqs)

take_nil : (n : ℕ) → take {A = DownloadRequest} n [] ≡ []
take_nil zero = refl
take_nil (suc n) = refl

-- While nothing is received, a channel that is not over its capacity keeps as many of the requests as
-- there is room for, the first ones and in their order, behind those that it holds; the others are
-- lost, and every call reports success.
pub queue_all_lem :
    (m : Manager) (reqs : List DownloadRequest)
    → length m.download_queue.sent ≤ m.download_queue.capacity
    → let (u, rs) = queue_all m reqs in
      let queue = m.download_queue in
      (u.download_queue.sent ≡ queue.sent ++ take (queue.capacity - length queue.sent) reqs)
      × AllOk rs
      × (length rs ≡ length reqs)
unfolding queue_all
queue_all_lem m [] h =
    let queue = m.download_queue in
    (
      sym (
          ap (λ l. queue.sent ++ l) (take_nil (queue.capacity - length queue.sent))
          ∙ append-nil queue.sent),
      tt,
      refl,
    )
queue_all_lem m (req ∷ reqs) h =
    let queue = m.download_queue in
    elim (Bool-cases (ltb (length queue.sent) queue.capacity)) [
      | inl e ↦
          let u = sent_to m req in
          let one : length u.download_queue.sent ≡ length queue.sent + 1 =
            length-append queue.sent (req ∷ []) in
          let left : queue.capacity - length queue.sent
              ≡ suc (queue.capacity - length u.download_queue.sent) =
            ground (arith, one) in
          let (kept, oks, n) = queue_all_lem u reqs (ground (arith, one)) in
          subst (λ p. Kept m (req ∷ reqs) ((queue_all p.0 reqs).0, p.1 ∷ (queue_all p.0 reqs).1))
            (sym (queue_download_room m req e))
            (
              kept
                  ∙ append_assoc queue.sent (req ∷ []) _
                  ∙ ap (λ n. queue.sent ++ take n (req ∷ reqs)) (sym left),
              (refl, oks),
              ap suc n,
            )
      | inr e ↦
          let none_left : queue.capacity - length queue.sent ≡ 0 = ground arith in
          let (kept, oks, n) = queue_all_lem m reqs h in
          subst (λ p. Kept m (req ∷ reqs) ((queue_all p.0 reqs).0, p.1 ∷ (queue_all p.0 reqs).1))
            (sym (queue_download_full m req e))
            (
              kept
                  ∙ ap (λ n. queue.sent ++ take n reqs) none_left
                  ∙ sym (ap (λ n. queue.sent ++ take n (req ∷ reqs)) none_left),
              (refl, oks),
              ap suc n,
            )
    ]
