-- ===== src/Requests/Enqueue.antt =====
-- state.go: the sends on a queue's channel in `handleRequest`, and the drain that follows them.
use v_llm_orchestrator.Base.{
  append_assoc, append_nil, ℕ, zero, suc, ◌-◌, ◌≡◌, ◌≢◌, refl, ◌∙◌, ap, if◌then◌else◌, true, false,
  List, [], ◌∷◌, ◌++◌, length, length-append, ltb, arith,
}
use v_llm_orchestrator.Orchestrator.{Orchestrator, ModelEntry, Event, wrote, emit, set_entry}
use v_llm_orchestrator.Orchestrator.Monad.{World, M, pure, ◌>>=◌, alone, done}
use v_llm_orchestrator.Orchestrator.Transitions.{drain_queue}
use v_llm_orchestrator.Requests.{enqueue}
use v_llm_orchestrator.Requests.Queue.{counted, released, drain_queue-released}

-- Requests that come one after the other; the result is those that go on to wait.
abbrev pub enqueue_each : ℕ → List ℕ → M (List ℕ)
enqueue_each me [] = pure []
enqueue_each me (rp ∷ rest) = do
  queued ← enqueue me rp
  more ← enqueue_each me rest
  pure (if queued then rp ∷ more else more)

-- The queue is drained after that.
abbrev pub enqueue_and_drain : ℕ → List ℕ → M (Unit {0})
enqueue_and_drain me rps = enqueue_each me rps >>= λ queued. drain_queue me

-- The requests that find room for so many, and those that do not.
abbrev pub fitting : ℕ → List ℕ → List ℕ
fitting zero rps = []
fitting (suc room) [] = []
fitting (suc room) (rp ∷ rest) = rp ∷ fitting room rest

abbrev pub beyond : ℕ → List ℕ → List ℕ
beyond zero rps = rps
beyond (suc room) [] = []
beyond (suc room) (rp ∷ rest) = beyond room rest

-- The events of requests that are turned away, newest first, on top of a trace.
abbrev pub turned_away : List ℕ → List Event → List Event
turned_away [] t = t
turned_away (rp ∷ rest) t = turned_away rest (wrote rp 503 ∷ t)

unchanged : (e : ModelEntry) → e ≡ record e { queue = e.queue ++ [] }
unchanged e = ap (λ q. record e { queue = q }) (append_nil e.queue)

-- An entry after its queue is drained.
abbrev drained : ModelEntry → ModelEntry
drained e = record e { active_requests = counted e.queue e.active_requests; queue = [] }

module _ (w : World) (me : ℕ) where
  record Sent (o : Orchestrator) (room : ℕ) (rps : List ℕ) : Type 0 where
    ends : (enqueue_each me rps (alone w) o).0 ≡ done (fitting room rps)
    entry_is :
        (enqueue_each me rps (alone w) o).1.entry me
        ≡ record (o.entry me) { queue = (o.entry me).queue ++ fitting room rps }
    trace_is : (enqueue_each me rps (alone w) o).1.trace ≡ turned_away (beyond room rps) o.trace
    others_are : (j : ℕ) → j ≢ me → (enqueue_each me rps (alone w) o).1.entry j ≡ o.entry j

  enqueue_each-Sent :
      (room : ℕ) (rps : List ℕ) (o : Orchestrator)
      → room ≡ (o.entry me).queue_cap - length (o.entry me).queue
      → Sent o room rps
  unfolding enqueue
  enqueue_each-Sent zero [] o q = record {
    ends = refl;
    entry_is = unchanged (o.entry me);
    trace_is = refl;
    others_are = λ j h. refl;
  }
  enqueue_each-Sent (suc room) [] o q = record {
    ends = refl;
    entry_is = unchanged (o.entry me);
    trace_is = refl;
    others_are = λ j h. refl;
  }
  enqueue_each-Sent zero (rp ∷ rest) o q =
      let now = record o { moment = suc o.moment } in
      let full : ltb (length (o.entry me).queue) (o.entry me).queue_cap ≡ false = ground arith in
      let ih = enqueue_each-Sent zero rest (emit (wrote rp 503) now) q in
      record {
        ends = rw (full, ih.ends) refl;
        entry_is = rw (full, ih.ends) ih.entry_is;
        trace_is = rw (full, ih.ends) ih.trace_is;
        others_are = λ j h. rw (full, ih.ends) (ih.others_are j h);
      }
  enqueue_each-Sent (suc room) (rp ∷ rest) o q =
      let e = o.entry me in
      let now = record o { moment = suc o.moment } in
      let free : ltb (length e.queue) e.queue_cap ≡ true = ground arith in
      let next = set_entry me (record e { queue = e.queue ++ rp ∷ [] }) now in
      let less : room ≡ (next.entry me).queue_cap - length (next.entry me).queue =
        ground (arith, length-append e.queue (rp ∷ [])) in
      let ih = enqueue_each-Sent room rest next less in
      let longer : record (next.entry me) { queue = (next.entry me).queue ++ fitting room rest }
          ≡ record e { queue = e.queue ++ rp ∷ fitting room rest } =
        ground (arith, append_assoc e.queue (rp ∷ []) (fitting room rest)) in
      record {
        ends = rw (free, ih.ends) refl;
        entry_is = rw (free, ih.ends) (ih.entry_is ∙ longer);
        trace_is = rw (free, ih.ends) ih.trace_is;
        others_are = λ j h. rw (free, ih.ends) (ih.others_are j h ∙ ground arith);
      }

-- Where no other goroutine runs, of requests that come one after the other the first are queued, in
-- order and as many as the channel has room for, and only these go on to wait; each other one is answered with 503, once and
-- in order, and nothing else changes. If the queue is drained then, those that waited before and
-- those that were queued are counted as active, and each one's channel is closed once, in the order
-- in which they came; a request that was turned away is not among them.
pub enqueue_each-drained :
    (w : World) (o : Orchestrator) (me room : ℕ) (rps : List ℕ)
    → room ≡ (o.entry me).queue_cap - length (o.entry me).queue
    → ((enqueue_each me rps (alone w) o).0 ≡ done (fitting room rps))
      × ((enqueue_each me rps (alone w) o).1.entry me
          ≡ record (o.entry me) { queue = (o.entry me).queue ++ fitting room rps })
      × ((enqueue_each me rps (alone w) o).1.trace ≡ turned_away (beyond room rps) o.trace)
      × ((enqueue_and_drain me rps (alone w) o).0 ≡ done tt)
      × ((enqueue_and_drain me rps (alone w) o).1.entry me ≡ record (o.entry me) {
        active_requests =
            counted ((o.entry me).queue ++ fitting room rps) (o.entry me).active_requests;
        queue = [];
      })
      × ((enqueue_and_drain me rps (alone w) o).1.trace
          ≡ released
              ((o.entry me).queue ++ fitting room rps)
              (turned_away (beyond room rps) o.trace))
      × ((j : ℕ) → j ≢ me → (enqueue_and_drain me rps (alone w) o).1.entry j ≡ o.entry j)
enqueue_each-drained w o me room rps q =
    let sent = enqueue_each-Sent w me room rps o q in
    let o' = (enqueue_each me rps (alone w) o).1 in
    let (ends, entry_is, trace_is, others_are) = drain_queue-released (alone w) o' me in
    let start = sent.entry_is in
    (
      sent.ends,
      start,
      sent.trace_is,
      rw sent.ends ends,
      rw sent.ends (entry_is ∙ ap drained start),
      rw sent.ends (
          trace_is
          ∙ ap (λ t. released (o'.entry me).queue t) sent.trace_is
          ∙ ap (λ e. released (e.queue) (turned_away (beyond room rps) o.trace)) start),
      λ j h. rw sent.ends (others_are j h ∙ sent.others_are j h),
    )
