-- ===== src/Requests/Replicas.antt =====
-- state.go: the rounds of the inner loop of `newOrchestrator`, which make the replicas of a model.
use v_llm_orchestrator.Base.{
  append_assoc, append_nil, ℕ, zero, suc, ◌+◌, ◌<◌, ℤ, pos_part, ◌≡◌, ◌≢◌, refl, sym, subst, ap,
  ◌∙◌, List, [], ◌∷◌, ◌++◌, length, length-append, none, arith, String,
}
use v_llm_orchestrator.Config.{ModelConfig, Config}
use v_llm_orchestrator.Orchestrator.{unloaded, ModelEntry, Orchestrator}
use v_llm_orchestrator.Requests.Setup.{new_entry, add_entry, add_replicas, name_set, name_aliases}

-- So many numbers, from one on.
abbrev pub numbered : ℕ → ℕ → List ℕ
numbered from zero = []
numbered from (suc n) = from ∷ numbered (suc from) n

-- An entry as it is created for a model.
abbrev pub IsReplica : Config → ModelConfig → ℕ → ModelEntry → Type 0
IsReplica cfg mc set e =
    (e.cfg ≡ mc)
    × (e.replica_set ≡ set)
    × (e.state ≡ unloaded)
    × (e.proc ≡ none)
    × (e.queue ≡ [])
    × (e.queue_cap ≡ pos_part cfg.queue_depth)

pub length-numbered : (from n : ℕ) → length (numbered from n) ≡ n
length-numbered from zero = refl
length-numbered from (suc n) = ap suc (length-numbered (suc from) n)

pub append-numbered :
    (from m n : ℕ) → numbered from m ++ numbered (from + m) n ≡ numbered from (m + n)
append-numbered from zero n =
    ap (λ k. numbered k n) (omega arith) ∙ ap (numbered from) (omega arith)
append-numbered from (suc m) n =
    let step : from + suc m ≡ suc from + m = omega arith in
    let count : suc m + n ≡ suc (m + n) = omega arith in
    ap (λ k. from ∷ (numbered (suc from) m ++ numbered k n)) step
    ∙ ap (λ t. from ∷ t) (append-numbered (suc from) m n)
    ∙ ap (numbered from) (sym count)

pub name_aliases-same :
    (set : ℕ) (l : List String) (o : Orchestrator)
    → (m : List (String × ℕ)) × (name_aliases set l o ≡ record o { model_by_name = m })
unfolding name_aliases
name_aliases-same set [] o = (o.model_by_name, refl)
name_aliases-same set (a ∷ rest) o = name_aliases-same set rest (name_set set a o)

module _ (cfg : Config) (now : ℤ) where
  module _ (mc : ModelConfig) (set n : ℕ) where
    -- What so many rounds of the inner loop add.
    pub record Added (i left : ℕ) (o : Orchestrator) : Type 0 where
      pub models_are :
          (add_replicas cfg mc set n now i left o).models
          ≡ o.models ++ numbered (length o.models) left
      pub entries_are :
          ((add_replicas cfg mc set n now i left o).sets set).entries
          ≡ (o.sets set).entries ++ numbered (length o.models) left
      pub sets_kept : (s : ℕ) → s ≢ set → (add_replicas cfg mc set n now i left o).sets s ≡ o.sets s
      pub old_kept :
          (me : ℕ)
          → me < length o.models
          → (add_replicas cfg mc set n now i left o).entry me ≡ o.entry me
      pub new_are :
          (k : ℕ)
          → k < left
          → IsReplica cfg mc set
              ((add_replicas cfg mc set n now i left o).entry (length o.models + k))

    pub add_replicas-Added : (i left : ℕ) (o : Orchestrator) → Added i left o
    unfolding add_replicas new_entry
    add_replicas-Added i zero o = record {
      models_are = append_nil o.models;
      entries_are = append_nil (o.sets set).entries;
      sets_kept = λ s h. refl;
      old_kept = λ me h. refl;
      new_are = λ k h. absurd (omega arith);
    }
    add_replicas-Added i (suc left) o =
        let o' = add_entry set (new_entry cfg mc set n i now) o in
        let len = length o.models in
        let here : (o'.sets set).entries ≡ (o.sets set).entries ++ len ∷ [] = ground arith in
        let longer : length o'.models ≡ suc (length o.models) =
          ground (arith, length-append o.models (length o.models ∷ [])) in
        let ih = add_replicas-Added (suc i) left o' in
        record {
          models_are =
              ih.models_are
              ∙ (ap (λ m. o'.models ++ numbered m left) longer
                  ∙ append_assoc o.models (len ∷ []) (numbered (suc len) left));
          entries_are =
              ih.entries_are
              ∙ (ap (λ m. (o'.sets set).entries ++ numbered m left) longer
                  ∙ ap (λ es. es ++ numbered (suc len) left) here
                  ∙ append_assoc (o.sets set).entries (len ∷ []) (numbered (suc len) left));
          sets_kept = λ s h. ih.sets_kept s h ∙ ground arith;
          old_kept = λ me h. ih.old_kept me (omega arith) ∙ ground arith;
          new_are = λ k h. new k h ih longer;
        }
      where
        new :
            (k : ℕ)
            → k < suc left
            → Added (suc i) left (add_entry set (new_entry cfg mc set n i now) o)
            → length (o.models ++ length o.models ∷ []) ≡ suc (length o.models)
            → IsReplica cfg mc set (
                (add_replicas cfg mc set n now
                    (suc i)
                    left
                    (add_entry set (new_entry cfg mc set n i now) o)).entry
                  (length o.models + k))
        new zero h ih longer =
            let first : length o.models + 0 ≡ length o.models = omega arith in
            let kept = ih.old_kept (length o.models) (omega arith) in
            let mine : (add_entry set (new_entry cfg mc set n i now) o).entry (length o.models)
                ≡ new_entry cfg mc set n i now =
              ground arith in
            rw (first, kept, mine) (refl, refl, refl, refl, refl, refl)
        new (suc k) h ih longer =
            let at : length (o.models ++ length o.models ∷ []) + k ≡ length o.models + suc k =
              omega arith in
            subst
              (λ m. IsReplica cfg mc set (
                (add_replicas cfg mc set n now (suc i) left
                    (add_entry set (new_entry cfg mc set n i now) o)).entry
                  m))
              at (ih.new_are k (omega arith))
