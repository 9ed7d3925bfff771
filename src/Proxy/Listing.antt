-- ===== src/Proxy/Listing.antt =====
-- proxy.go: `serveModels` and `forwardToAnyActive`, where no other goroutine runs.
use v_llm_orchestrator.Base.{
  ℕ, suc, ℤ, ◌≤◌, ◌≡◌, ◌⊎◌, refl, Bool-cases, inl, inr, List, [], ◌∷◌, ◌++◌, Option, none, some,
  if◌then◌else◌, String,
}
use v_llm_orchestrator.Memory.Parse.{Text}
use v_llm_orchestrator.Orchestrator.{
  ModelState, unloaded, loading, active, sleep1, sleep2, ModelEntry, Orchestrator, ModelItem, live,
  stub, Event, state_eq, wrote, forwarded,
}
use v_llm_orchestrator.Orchestrator.Monad.{World, Outcome, done, alone}
use v_llm_orchestrator.Requests.{forward_direct}
use v_llm_orchestrator.Proxy.{forward_to_active, inject_state}

-- The first model of the list that is ACTIVE.
abbrev pub first_active : (ℕ → ModelEntry) → List ℕ → Option ℕ
first_active entry [] = none
first_active entry (me ∷ rest) =
    let later = first_active entry rest in
    if state_eq (entry me).state active then some me else later

-- What the request for the docs leads to.
abbrev pub passed : ℕ → Orchestrator → Option ℕ → Event
passed rp o none = wrote rp 503
passed rp o (some me) = forwarded rp (o.entry me).socket_path

-- Where no other goroutine runs, a request for the docs goes to the socket of the first model of the
-- list that is ACTIVE, and is answered with 503 where there is none.
pub forward_to_active-first :
    (w : World) (rp : ℕ) (models : List ℕ) (o : Orchestrator)
    → ((forward_to_active rp models (alone w) o).0 ≡ done tt)
      × ((forward_to_active rp models (alone w) o).1.trace
          ≡ passed rp o (first_active o.entry models) ∷ o.trace)
unfolding forward_to_active forward_direct
forward_to_active-first w rp [] o = (refl, refl)
forward_to_active-first w rp (me ∷ rest) o =
    let ih = forward_to_active-first w rp rest (record o { moment = suc o.moment }) in
    elim (Bool-cases (state_eq (o.entry me).state active)) [
      | inl is_active ↦ rw is_active (refl, refl)
      | inr inactive ↦ rw inactive ih
    ]

-- The word for a state in the list.
pub data Word : ModelState → String → Type 0 where
  of_unloaded : Word unloaded "unloaded"
  of_loading : Word loading "loading"
  of_active : Word active "active"
  of_sleep1 : Word sleep1 "sleep1"
  of_sleep2 : Word sleep2 "sleep2"

-- A model whose server can be asked: it is ACTIVE or asleep, and has a process.
abbrev pub IsUp : ModelEntry → Type 0
IsUp e =
    ((e.state ≡ active) ⊎ ((e.state ≡ sleep1) ⊎ (e.state ≡ sleep2))) × ((p : ℕ) × (e.proc ≡ some p))

abbrev pub IsDown : ModelEntry → Type 0
IsDown e = ((e.state ≡ unloaded) ⊎ (e.state ≡ loading)) ⊎ (e.proc ≡ none)

-- A server's objects, each with the word put in.
pub data Marked (w : World) (word : String) : List Text → List ModelItem → Type 0 where
  no_more : Marked w word [] []
  marked :
      {raws : List Text} {items : List ModelItem} (raw : Text)
      → Marked w word raws items
      → Marked w word (raw ∷ raws) (live (inject_state w.formats.is_print raw word) ∷ items)

-- The items of one model: its own for a model that is down or whose server gives no list, and
-- otherwise what the server gives when it is asked, which is not before `since`.
pub data ItemsOf (w : World) (since : ℕ) (created : ℤ) (e : ModelEntry)
    : List ModelItem → Type 0 where
  down :
      {word : String}
      → IsDown e
      → Word e.state word
      → ItemsOf w since created e (stub e.cfg.name word created e.cfg.vram_allocation ∷ [])
  silent :
      {word : String} {n : ℕ}
      → IsUp e
      → since ≤ n
      → w.live_models n ≡ none
      → Word e.state word
      → ItemsOf w since created e (stub e.cfg.name word created e.cfg.vram_allocation ∷ [])
  served :
      {word : String} {n : ℕ} {raws : List Text} {items : List ModelItem}
      → IsUp e
      → since ≤ n
      → w.live_models n ≡ some raws
      → Word e.state word
      → Marked w word raws items
      → ItemsOf w since created e items

-- The items of the models in order.
pub data Lists (w : World) (since : ℕ) (created : ℤ) (entry : ℕ → ModelEntry)
    : List ℕ → List ModelItem → Type 0 where
  nothing : Lists w since created entry [] []
  one_more :
      {me : ℕ} {rest : List ℕ} {items more : List ModelItem}
      → ItemsOf w since created (entry me) items
      → Lists w since created entry rest more
      → Lists w since created entry (me ∷ rest) (items ++ more)

module _ (w : World) (since : ℕ) (created : ℤ) where
  -- What a run makes of a model, and of the models.
  abbrev Listed : ModelEntry → Orchestrator → Outcome (List ModelItem) × Orchestrator → Type 0
  Listed e o r =
      (n : ℕ) × (items : List ModelItem) × (since ≤ n)
      × (r ≡ (done items, record o { moment = n }))
      × ItemsOf w since created e items
