-- ===== src/Requests/Queue.antt =====
-- state.go: the queue of requests. The drains release each waiting request once and in order.
use v_llm_orchestrator.Base.{ℕ, ℤ, pos, ◌≡◌, ◌≢◌, refl, List, [], ◌∷◌, arith, add_i64}
use v_llm_orchestrator.Orchestrator.{Orchestrator, Event, closed, flagged, wrote}
use v_llm_orchestrator.Orchestrator.Transitions.{
  release_one, release_all, reject_one, reject_all, drain_queue, drain_queue_with_503,
}
use v_llm_orchestrator.Orchestrator.Monad.{World, done}
use v_llm_orchestrator.Orchestrator.Stale.{interrupted}

-- The events of a release of the requests, newest first, on top of a trace.
abbrev pub released : List ℕ → List Event → List Event
released [] t = t
released (rp ∷ rest) t = released rest (closed rp ∷ t)

abbrev pub rejected : List ℕ → List Event → List Event
rejected [] t = t
rejected (rp ∷ rest) t = rejected rest (closed rp ∷ flagged rp ∷ wrote rp 503 ∷ t)

-- The count of active requests after some more.
abbrev pub counted : List ℕ → ℤ → ℤ
counted [] n = n
counted (rp ∷ rest) n = counted rest (add_i64 n (pos 1))

module _ (me : ℕ) where
  release_all-entry :
      (rs : List ℕ) (o : Orchestrator)
      → (o.entry me).queue ≡ rs
      → (release_all me rs o).entry me ≡ record (o.entry me) {
        active_requests = counted rs (o.entry me).active_requests;
        queue = [];
      }
  unfolding release_all
  release_all-entry [] o e = ground arith
  release_all-entry (rp ∷ rest) o e =
      ground (arith, release_all-entry rest (release_one me rp rest o))

  release_all-trace :
      (rs : List ℕ) (o : Orchestrator) → (release_all me rs o).trace ≡ released rs o.trace
  unfolding release_all
  release_all-trace [] o = refl
  release_all-trace (rp ∷ rest) o = release_all-trace rest (release_one me rp rest o)

  release_all-others :
      (j : ℕ)
      → j ≢ me
      → (rs : List ℕ) (o : Orchestrator) → (release_all me rs o).entry j ≡ o.entry j
  unfolding release_all
  release_all-others j h [] o = refl
  release_all-others j h (rp ∷ rest) o =
      ground (arith, release_all-others j h rest (release_one me rp rest o))

  reject_all-entry :
      (rs : List ℕ) (o : Orchestrator)
      → (o.entry me).queue ≡ rs
      → (reject_all me rs o).entry me ≡ record (o.entry me) { queue = [] }
  unfolding reject_all
  reject_all-entry [] o e = ground arith
  reject_all-entry (rp ∷ rest) o e = ground (arith, reject_all-entry rest (reject_one me rp rest o))

  reject_all-trace :
      (rs : List ℕ) (o : Orchestrator) → (reject_all me rs o).trace ≡ rejected rs o.trace
  unfolding reject_all
  reject_all-trace [] o = refl
  reject_all-trace (rp ∷ rest) o = reject_all-trace rest (reject_one me rp rest o)

  reject_all-others :
      (j : ℕ) → j ≢ me → (rs : List ℕ) (o : Orchestrator) → (reject_all me rs o).entry j ≡ o.entry j
  unfolding reject_all
  reject_all-others j h [] o = refl
  reject_all-others j h (rp ∷ rest) o =
      ground (arith, reject_all-others j h rest (reject_one me rp rest o))

-- Whatever the others do before it, `drainQueue` empties the model's queue, counts each request that
-- waited as active, and closes each one's channel once, oldest first; nothing else changes in the
-- entry, no other model changes, and nothing is answered.
pub drain_queue-released :
    (w : World) (o : Orchestrator) (me : ℕ)
    → ((drain_queue me w o).0 ≡ done tt)
      × ((drain_queue me w o).1.entry me ≡ record ((interrupted w o).entry me) {
        active_requests =
            counted ((interrupted w o).entry me).queue ((interrupted w o).entry me).active_requests;
        queue = [];
      })
      × ((drain_queue me w o).1.trace
          ≡ released ((interrupted w o).entry me).queue (interrupted w o).trace)
      × ((j : ℕ) → j ≢ me → (drain_queue me w o).1.entry j ≡ (interrupted w o).entry j)
unfolding drain_queue
drain_queue-released w o me =
    let now = interrupted w o in
    (
      refl,
      release_all-entry me (now.entry me).queue now refl,
      release_all-trace me (now.entry me).queue now,
      λ j h. release_all-others me j h (now.entry me).queue now,
    )

-- So does `drainQueueWith503`, but each request is answered with 503 and flagged before its channel
-- is closed, and none is counted.
pub drain_queue_with_503-rejected :
    (w : World) (o : Orchestrator) (me : ℕ)
    → ((drain_queue_with_503 me w o).0 ≡ done tt)
      × ((drain_queue_with_503 me w o).1.entry me
          ≡ record ((interrupted w o).entry me) { queue = [] })
      × ((drain_queue_with_503 me w o).1.trace
          ≡ rejected ((interrupted w o).entry me).queue (interrupted w o).trace)
      × ((j : ℕ) → j ≢ me → (drain_queue_with_503 me w o).1.entry j ≡ (interrupted w o).entry j)
unfolding drain_queue_with_503
drain_queue_with_503-rejected w o me =
    let now = interrupted w o in
    (
      refl,
      reject_all-entry me (now.entry me).queue now refl,
      reject_all-trace me (now.entry me).queue now,
      λ j h. reject_all-others me j h (now.entry me).queue now,
    )
