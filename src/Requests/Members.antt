-- ===== src/Requests/Members.antt =====
-- state.go: the entries that `newOrchestrator` makes, and the replica set of each.
use v_llm_orchestrator.Base.{
  append_assoc, append_nil, ℕ, zero, suc, ◌+◌, ◌<◌, ℤ, ◌≡◌, refl, sym, subst, ap, ◌∙◌, List, [],
  ◌∷◌, ◌++◌, length, length-append, some, get_elem?, arith, ◌==◌, if◌then◌else◌,
}
use v_llm_orchestrator.Config.{ModelConfig, Config}
use v_llm_orchestrator.Memory.{MemoryState}
use v_llm_orchestrator.Orchestrator.{ModelEntry, ReplicaSet, Orchestrator}
use v_llm_orchestrator.Requests.Resolve.{same_name}
use v_llm_orchestrator.Requests.Replicas.{
  numbered, IsReplica, length-numbered, append-numbered, name_aliases-same, add_replicas-Added,
}
use v_llm_orchestrator.Requests.Setup.{
  replica_count, add_replicas, name_set, add_models, new_orchestrator,
}

-- How many entries the models before an index have.
abbrev pub replicas_before : List ModelConfig → ℕ → ℕ
replicas_before [] i = 0
replicas_before (mc ∷ rest) zero = 0
replicas_before (mc ∷ rest) (suc i) = replica_count mc + replicas_before rest i

module _ (cfg : Config) (now : ℤ) where
  -- What the outer loop makes of the rest of the models, from a set on.
  record Built (set : ℕ) (l : List ModelConfig) (o final : Orchestrator) : Type 0 where
    all_models :
        final.models ≡ o.models ++ numbered (length o.models) (replicas_before l (length l))
    sets_stay : (s : ℕ) → s < set → final.sets s ≡ o.sets s
    entries_stay : (me : ℕ) → me < length o.models → final.entry me ≡ o.entry me
    sets_are :
        (i : ℕ) (mc : ModelConfig)
        → get_elem? l i ≡ some mc
        → (final.sets (set + i)).entries
          ≡ numbered (length o.models + replicas_before l i) (replica_count mc)
    replicas_are :
        (i : ℕ) (mc : ModelConfig)
        → get_elem? l i ≡ some mc
        → (k : ℕ) → k < replica_count mc
        → IsReplica cfg mc (set + i) (final.entry (length o.models + replicas_before l i + k))

  -- What one model adds.
  record Made (set : ℕ) (mc : ModelConfig) (o o' : Orchestrator) : Type 0 where
    its_models : o'.models ≡ o.models ++ numbered (length o.models) (replica_count mc)
    its_set : (o'.sets set).entries ≡ numbered (length o.models) (replica_count mc)
    its_count : length o'.models ≡ length o.models + replica_count mc
    before_sets : (s : ℕ) → s < set → o'.sets s ≡ o.sets s
    before_entries : (me : ℕ) → me < length o.models → o'.entry me ≡ o.entry me
    its_entries :
        (k : ℕ) → k < replica_count mc → IsReplica cfg mc set (o'.entry (length o.models + k))

  Built-next :
      (set : ℕ) (mc : ModelConfig) (rest : List ModelConfig) (o o' final : Orchestrator)
      → Made set mc o o'
      → Built (suc set) rest o' final
      → Built set (mc ∷ rest) o final
  Built-next set mc rest o o' final made later = record {
    all_models = later.all_models ∙ all;
    sets_stay = λ s h. later.sets_stay s (omega arith) ∙ made.before_sets s h;
    entries_stay =
        λ me h. later.entries_stay me (omega (arith, made.its_count)) ∙ made.before_entries me h;
    sets_are = sets;
    replicas_are = replicas;
  }
    where
      all :
          o'.models ++ numbered (length o'.models) (replicas_before rest (length rest))
          ≡ o.models
            ++ numbered (length o.models) (replicas_before (mc ∷ rest) (length (mc ∷ rest)))
      all =
          ap (λ m. o'.models ++ numbered m (replicas_before rest (length rest))) made.its_count
          ∙ ap
              (λ l.
                l
                ++ numbered (length o.models + replica_count mc)
                    (replicas_before rest (length rest)))
              made.its_models
          ∙ append_assoc o.models _ _
          ∙ ap (λ l. o.models ++ l) (append-numbered (length o.models) (replica_count mc) _)

      sets :
          (i : ℕ) (c : ModelConfig)
          → get_elem? (mc ∷ rest) i ≡ some c
          → (final.sets (set + i)).entries
            ≡ numbered (length o.models + replicas_before (mc ∷ rest) i) (replica_count c)
      sets zero c q =
          ap (λ s. (final.sets s).entries) (omega arith)
          ∙ ap (λ r. r.entries) (later.sets_stay set (omega arith))
          ∙ made.its_set
          ∙ ap (λ m. numbered m (replica_count mc)) (omega arith)
          ∙ ap (λ d. numbered (length o.models + 0) (replica_count d)) (same_name q)
      sets (suc i) c q =
          ap (λ s. (final.sets s).entries) (omega arith)
          ∙ later.sets_are i c q
          ∙ ap (λ m. numbered m (replica_count c)) (omega (arith, made.its_count))

      replicas :
          (i : ℕ) (c : ModelConfig)
          → get_elem? (mc ∷ rest) i ≡ some c
          → (k : ℕ) → k < replica_count c
          → IsReplica cfg c
              (set + i)
              (final.entry (length o.models + replicas_before (mc ∷ rest) i + k))
      replicas zero c q k h =
          let its : k < replica_count mc = subst (λ d. k < replica_count d) (sym (same_name q)) h in
          let stays : final.entry (length o.models + k) ≡ o'.entry (length o.models + k) =
            later.entries_stay (length o.models + k) (omega (arith, made.its_count)) in
          let place : length o.models + k ≡ length o.models + 0 + k = omega arith in
          let number : set ≡ set + 0 = omega arith in
          subst (λ s. IsReplica cfg c s (final.entry (length o.models + 0 + k))) number
            (subst (λ d. IsReplica cfg d set (final.entry (length o.models + 0 + k))) (same_name q)
              (subst (λ a. IsReplica cfg mc set (final.entry a)) place
                (subst (IsReplica cfg mc set) (sym stays) (made.its_entries k its))))
      replicas (suc i) c q k h =
          let before = replicas_before rest i in
          let place : length o'.models + before + k
              ≡ length o.models + (replica_count mc + before) + k =
            omega (arith, made.its_count) in
          let number : suc set + i ≡ set + suc i = omega arith in
          subst
            (λ s.
              IsReplica cfg c s (final.entry (length o.models + (replica_count mc + before) + k)))
            number
            (subst (λ a. IsReplica cfg c (suc set + i) (final.entry a)) place
              (later.replicas_are i c q k h))

  add_models-Built :
      (set : ℕ) (l : List ModelConfig) (o : Orchestrator)
      → Built set l o (add_models cfg now set l o)
  unfolding add_models
  add_models-Built set [] o = record {
    all_models = append_nil o.models;
    sets_stay = λ s h. refl;
    entries_stay = λ me h. refl;
    sets_are = λ i mc q. absurd (ground arith);
    replicas_are = λ i mc q. absurd (ground arith);
  }
  add_models-Built set (mc ∷ rest) o =
      let n = replica_count mc in
      let fresh : Orchestrator = record o {
        sets = λ s. if s == set then record { entries = []; next = 0 } else o.sets s;
      } in
      let o' = add_replicas cfg mc set n now 0 n fresh in
      let added = add_replicas-Added cfg now mc set n 0 n fresh in
      let (m, same) = name_aliases-same set mc.aliases (name_set set mc.name o') in
      let next : Orchestrator = record o' { model_by_name = m } in
      let empty : (fresh.sets set).entries ≡ [] = ground arith in
      let made : Made set mc o next = record {
        its_models = added.models_are;
        its_set = added.entries_are ∙ ap (λ l. l ++ numbered (length o.models) n) empty;
        its_count =
            ap length added.models_are
            ∙ length-append o.models (numbered (length o.models) n)
            ∙ ap (λ k. length o.models + k) (length-numbered (length o.models) n);
        before_sets = λ s h. added.sets_kept s (λ e. omega arith) ∙ ground arith;
        before_entries = added.old_kept;
        its_entries = added.new_are;
      } in
      subst (Built set (mc ∷ rest) o) (sym (ap (add_models cfg now (suc set) rest) same))
        (Built-next set mc rest o next _ made (add_models-Built (suc set) rest next))

replica_count_positive : (mc : ModelConfig) → 0 < replica_count mc
unfolding replica_count
replica_count_positive mc = ground arith

-- Whatever the heap held before `newOrchestrator`, the entries that it lists have the addresses from
-- 0 on, in order; the set of the model with the index `i` holds the addresses that follow those of
-- the models before it, as many as the model has replicas and one at least; and each entry of the
-- set was created for the model: it has its configuration, belongs to the set, is UNLOADED without a
-- process, and has an empty queue of the configured depth.
pub new_orchestrator-IsReplica :
    (cfg : Config) (ms : MemoryState) (now : ℤ) (entry : ℕ → ModelEntry) (sets : ℕ → ReplicaSet)
    (i : ℕ) (mc : ModelConfig)
    → get_elem? cfg.models i ≡ some mc
    → ((new_orchestrator cfg ms now entry sets).models
        ≡ numbered 0 (replicas_before cfg.models (length cfg.models)))
      × (((new_orchestrator cfg ms now entry sets).sets i).entries
          ≡ numbered (replicas_before cfg.models i) (replica_count mc))
      × (0 < replica_count mc)
      × ((k : ℕ)
          → k < replica_count mc
          → IsReplica cfg mc i
              ((new_orchestrator cfg ms now entry sets).entry (replicas_before cfg.models i + k)))
unfolding new_orchestrator
new_orchestrator-IsReplica cfg ms now entry sets i mc q =
    let built = add_models-Built cfg now 0 cfg.models (record {
      cfg = cfg;
      ms = ms;
      models = [];
      entry = entry;
      sets = sets;
      model_by_name = [];
      next_proc = 0;
      moment = 0;
      trace = [];
    }) in
    let final = new_orchestrator cfg ms now entry sets in
    let before = replicas_before cfg.models i in
    let number : 0 + i ≡ i = omega arith in
    let from : 0 + before ≡ before = omega arith in
    (
      built.all_models,
      ap (λ s. (final.sets s).entries) (sym number)
          ∙ built.sets_are i mc q
          ∙ ap (λ m. numbered m (replica_count mc)) from,
      replica_count_positive mc,
      λ k h.
          subst (λ s. IsReplica cfg mc s (final.entry (before + k))) number
            (subst (λ b. IsReplica cfg mc (0 + i) (final.entry (b + k))) from
              (built.replicas_are i mc q k h)),
    )
