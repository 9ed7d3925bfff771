-- ===== src/Startup/Ready.antt =====
-- main.go: what the program has once it serves.
use v_llm_orchestrator.Base.{
  ℕ, zero, suc, ℤ, ◌==◌, ◌&&◌, not, Bool, Bool-cases, true, false, inl, inr, List, [], ◌∷◌, ◌++◌,
  Option, none, some, String, All, get_elem?, length, ◌⊎◌, ◌≡◌, refl, sym, ◌∙◌, ap, subst, arith,
  str_eq, if◌then◌else◌,
}
use v_llm_orchestrator.Base.Result.{Result, failed, succeeded, >>=-eq-succeeded, >>-eq-succeeded}
use v_llm_orchestrator.Config.{Config, ModelConfig}
use v_llm_orchestrator.Config.Validate.{validate_config}
use v_llm_orchestrator.Config.Valid.{IsValid}
use v_llm_orchestrator.Config.Theorems.{validate_config-IsValid}
use v_llm_orchestrator.Memory.{MemoryState, init_memory, refresh_memory}
use v_llm_orchestrator.Orchestrator.{ModelEntry, ReplicaSet, Orchestrator}
use v_llm_orchestrator.Orchestrator.Invariant.{Inv, IsGood}
use v_llm_orchestrator.Requests.Setup.{
  replica_count, new_entry, add_replicas, name_set, name_aliases, add_models, new_orchestrator,
  resolve,
}
use v_llm_orchestrator.Requests.Resolve.{resolve-named}
use v_llm_orchestrator.Startup.{
  has_suffix, StartError, Machine, in_start, invalid, no_memory, path_or_fail, config_path,
  load_config, stale_sockets, clean_dir, startup_models, Started, started, start,
}
use v_llm_orchestrator.Startup.Shutdown.{is_in}

-- The configuration, and entries in a state that they may have been created in.
abbrev pub IsFresh : Config → Orchestrator → Type 0
IsFresh cfg o = (o.cfg ≡ cfg) × Inv o.entry o

module _ (cfg c : Config) where
  new_entry-IsGood :
      (mc : ModelConfig) (set n i : ℕ) (now : ℤ)
      → IsGood (new_entry cfg mc set n i now) (new_entry cfg mc set n i now)
  unfolding new_entry
  new_entry-IsGood mc set n i now = record {
    fixed_kept = refl;
    awake = ground arith;
    queue_fits = omega arith;
  }

  add_replicas-IsFresh :
      (mc : ModelConfig) (set n : ℕ) (now : ℤ) (i left : ℕ) (o : Orchestrator)
      → IsFresh c o
      → IsFresh c (add_replicas cfg mc set n now i left o)
  unfolding add_replicas
  add_replicas-IsFresh mc set n now i zero o h = h
  add_replicas-IsFresh mc set n now i (suc left) o (same, good) =
      add_replicas-IsFresh mc set n now (suc i) left _
        (same, λ j. go (j == length o.models) (o.entry j) (good j))
    where
      go :
          (b : Bool) (e : ModelEntry)
          → IsGood e e
          → IsGood
              (if b then new_entry cfg mc set n i now else e)
              (if b then new_entry cfg mc set n i now else e)
      go true e g = new_entry-IsGood mc set n i now
      go false e g = g

  name_aliases-IsFresh :
      (set : ℕ) (l : List String) (o : Orchestrator)
      → IsFresh c o
      → IsFresh c (name_aliases set l o)
  unfolding name_aliases
  name_aliases-IsFresh set [] o h = h
  name_aliases-IsFresh set (a ∷ rest) o h = name_aliases-IsFresh set rest (name_set set a o) h

  add_models-IsFresh :
      (now : ℤ) (set : ℕ) (l : List ModelConfig) (o : Orchestrator)
      → IsFresh c o
      → IsFresh c (add_models cfg now set l o)
  unfolding add_models
  add_models-IsFresh now set [] o h = h
  add_models-IsFresh now set (mc ∷ rest) o h = add_models-IsFresh now (suc set) rest _ (
      name_aliases-IsFresh set mc.aliases _
        (add_replicas-IsFresh mc set (replica_count mc) now 0 (replica_count mc) _ h))

pub new_orchestrator-IsFresh :
    (cfg : Config) (ms : MemoryState) (now : ℤ) (entry : ℕ → ModelEntry) (sets : ℕ → ReplicaSet)
    → ((j : ℕ) → IsGood (entry j) (entry j))
    → IsFresh cfg (new_orchestrator cfg ms now entry sets)
unfolding new_orchestrator
new_orchestrator-IsFresh cfg ms now entry sets h =
    add_models-IsFresh cfg cfg now 0 cfg.models _ (refl, h)

-- A path of the directory that ends in .sock, and on which no process listens.
abbrev pub IsStale : Machine → String → String → Type 0
IsStale m dir path =
    (name : String) × (has_suffix ".sock" name ≡ true)
    × (path ≡ m.join_path dir name)
    × (m.owned path ≡ false)

stale_sockets-IsStale :
    (m : Machine) (dir : String) (names : List String)
    → All (IsStale m dir) (stale_sockets m dir names)
unfolding stale_sockets
stale_sockets-IsStale m dir [] = tt
stale_sockets-IsStale m dir (name ∷ rest) =
    go (has_suffix ".sock" name) (m.owned (m.join_path dir name)) refl refl
      (stale_sockets-IsStale m dir rest)
  where
    go :
        (socket owned : Bool)
        → has_suffix ".sock" name ≡ socket
        → m.owned (m.join_path dir name) ≡ owned
        → All (IsStale m dir) (stale_sockets m dir rest)
        → All (IsStale m dir) (
            if socket && not owned
            then m.join_path dir name ∷ stale_sockets m dir rest
            else stale_sockets m dir rest)
    go true false q r ih = ((name, q, refl, r), ih)
    go true true q r ih = ih
    go false owned q r ih = ih

clean_dir-IsStale :
    (m : Machine) (call : ℕ) (dir : String) → All (IsStale m dir) (clean_dir m call dir)
unfolding clean_dir
clean_dir-IsStale m call dir = elim (Bool-cases (str_eq dir "")) [
  | inl no_dir ↦ rw no_dir tt
  | inr has_dir ↦ rw has_dir (go (m.read_dir call dir))
]
  where
    go :
        (listed : Option (List String))
        → All (IsStale m dir) (elim listed [ none ↦ [] | some names ↦ stale_sockets m dir names ])
    go none = tt
    go (some names) = stale_sockets-IsStale m dir names

startup_models-is_in :
    (entry : ℕ → ModelEntry) (models : List ℕ) (j : ℕ)
    → is_in j (startup_models entry models) ≡ (is_in j models && (entry j).cfg.load_at_startup)
unfolding startup_models
startup_models-is_in entry [] j = refl
startup_models-is_in entry (me ∷ rest) j =
    let ih = startup_models-is_in entry rest j in
    let same = λ (q : j ≡ me). ap (λ i. (entry i).cfg.load_at_startup) q in
    elim (Bool-cases (entry me).cfg.load_at_startup) [
      | inl loads ↦ rw (loads, ih) (ground (arith, same))
      | inr waits ↦ rw (waits, ih) (ground (arith, same))
    ]

All-either :
    (P Q : String → Type 0) (xs ys : List String)
    → All P xs
    → All Q ys
    → All (λ p. P p ⊎ Q p) (xs ++ ys)
All-either P Q [] [] h k = tt
All-either P Q [] (y ∷ ys) h (q, k) = (inr q, All-either P Q [] ys h k)
All-either P Q (x ∷ xs) ys (p, h) k = (inl p, All-either P Q xs ys h k)

-- What is true of the program when it serves.
pub record IsReady (m : Machine) (s : Started) : Type 0 where
  pub valid : IsValid m.files s.orchestrator.cfg
  pub named :
      (i : ℕ) (mc : ModelConfig)
      → get_elem? s.orchestrator.cfg.models i ≡ some mc
      → (k : ℕ) (n : String) → get_elem? (mc.name ∷ mc.aliases) k ≡ some n
      → resolve s.orchestrator n ≡ some i
  pub loads :
      (j : ℕ)
      → is_in j s.loads
        ≡ (is_in j s.orchestrator.models && (s.orchestrator.entry j).cfg.load_at_startup)
  pub removed :
      All
        (λ p.
          IsStale m s.orchestrator.cfg.vllm_socket_dir p
          ⊎ IsStale m s.orchestrator.cfg.llama_cpp_socket_dir p)
        s.removed
  pub good : Inv s.orchestrator.entry s.orchestrator

in_start-succeeded {ℓ} :
    {Error Value : Type ℓ} (reason : Error → StartError) (r : Result Error Value) {v : Value}
    → in_start reason r ≡ succeeded v
    → r ≡ succeeded v
in_start-succeeded reason (failed e) h = absurd (ground arith)
in_start-succeeded {Value = Value} reason (succeeded v) h = ap succeeded (injected h)
  where
    injected : {a b : Value} → ◌≡◌ {A = Result StartError Value} (succeeded a) (succeeded b) → a ≡ b
    injected e = cc

abbrev served : Machine → Config → MemoryState → Started
served m cfg ms =
    started m cfg (new_orchestrator cfg (refresh_memory m.at_refresh ms) m.now m.entry m.sets)

start-served :
    (m : Machine) (s : Started)
    → start m ≡ succeeded s
    → (cfg : Config) × (ms : MemoryState) × (validate_config m.files cfg ≡ succeeded tt)
      × (◌≡◌ {A = Result StartError Started} (succeeded (served m cfg ms)) (succeeded s))
unfolding start
start-served m s h =
    let (path, p, h1) = >>=-eq-succeeded (path_or_fail (config_path m.flag m.variable)) _ h in
    let (cfg, c, h2) = >>=-eq-succeeded (load_config m path) _ h1 in
    let (v, h3) = >>-eq-succeeded (in_start invalid (validate_config m.files cfg)) _ h2 in
    let (ms, i, h4) = >>=-eq-succeeded (in_start no_memory (init_memory cfg m.at_init)) _ h3 in
    (cfg, ms, in_start-succeeded invalid (validate_config m.files cfg) v, h4)

served-IsReady :
    (m : Machine) (cfg : Config) (ms : MemoryState)
    → validate_config m.files cfg ≡ succeeded tt
    → ((j : ℕ) → IsGood (m.entry j) (m.entry j))
    → IsReady m (served m cfg ms)
served-IsReady m cfg ms v blank =
    let ms' = refresh_memory m.at_refresh ms in
    let o = new_orchestrator cfg ms' m.now m.entry m.sets in
    let (same, good) = new_orchestrator-IsFresh cfg ms' m.now m.entry m.sets blank in
    record {
      valid = subst (IsValid m.files) (sym same) ((validate_config-IsValid m.files cfg).0 v);
      named = λ i mc q k n r.
          resolve-named m.files cfg v i mc (ap (λ c. get_elem? c.models i) (sym same) ∙ q) k n r ms'
            m.now m.entry m.sets;
      loads = startup_models-is_in o.entry o.models;
      removed =
          subst
            (λ c.
              All (λ p. IsStale m c.vllm_socket_dir p ⊎ IsStale m c.llama_cpp_socket_dir p)
                (clean_dir m 0 cfg.vllm_socket_dir ++ clean_dir m 1 cfg.llama_cpp_socket_dir))
            (sym same)
            (All-either _ _ (clean_dir m 0 cfg.vllm_socket_dir)
              (clean_dir m 1 cfg.llama_cpp_socket_dir) (clean_dir-IsStale m 0 cfg.vllm_socket_dir)
              (clean_dir-IsStale m 1 cfg.llama_cpp_socket_dir));
      good = good;
    }

-- If the program comes to serve, its configuration is valid, each name and alias of a model resolves
-- to that model's replica set, the models that are loaded at once are those that the configuration
-- says, each file removed is a socket in one of the two socket directories on which no process
-- listens, and the entries are good, which is what `goroutines-Inv` starts from; the last for a heap
-- of good entries.
pub start-IsReady :
    (m : Machine) (s : Started)
    → start m ≡ succeeded s
    → ((j : ℕ) → IsGood (m.entry j) (m.entry j))
    → IsReady m s
start-IsReady m s h blank =
    let (cfg, ms, v, e) = start-served m s h in
    let same : served m cfg ms ≡ s = cc in subst (IsReady m) same (served-IsReady m cfg ms v blank)
