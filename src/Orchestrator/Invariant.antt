-- ===== src/Orchestrator/Invariant.antt =====
-- An invariant of all model entries, and how the actions of a goroutine keep it while the other
-- goroutines keep it too.
use v_llm_orchestrator.Base.{
  ℕ, ◌≤◌, ◌≡◌, refl, ◌==◌, ◌&&◌, ◌∙◌, ap, String, Bool, true, false, length, arith, ==_iff, sym,
  subst, if◌then◌else◌,
}
use v_llm_orchestrator.Config.{ModelConfig, is_llama_cpp}
use v_llm_orchestrator.Orchestrator.{
  ModelState, unloaded, loading, active, sleep1, sleep2, ModelEntry, Orchestrator, Event, set_entry,
}
use v_llm_orchestrator.Orchestrator.Monad.{
  World, M, Outcome, done, fault, Fault, and_then, pure, fail, ◌>>=◌, ◌>>◌, get, modify, pause, ask,
  clock, locked, put, tell, refresh,
}

abbrev pub is_asleep : ModelState → Bool
is_asleep sleep1 = true
is_asleep sleep2 = true
is_asleep unloaded = false
is_asleep loading = false
is_asleep active = false

-- What no operation changes in an entry.
abbrev pub fixed_part : ModelEntry → ModelConfig × String × ℕ × ℕ
fixed_part e = (e.cfg, e.socket_path, e.queue_cap, e.replica_set)

-- An entry that was created as `b`: what is fixed is still the same, a llama_cpp model is not
-- asleep, and the queue is within its capacity.
pub record IsGood (b e : ModelEntry) : Type 0 where
  pub fixed_kept : fixed_part e ≡ fixed_part b
  pub awake : (is_llama_cpp b.cfg && is_asleep e.state) ≡ false
  pub queue_fits : length e.queue ≤ b.queue_cap

module _ {b e e' : ModelEntry} (g : IsGood b e) (same : fixed_part e' ≡ fixed_part e) where
  -- Nothing but the fields that the invariant does not speak of has changed.
  pub IsGood-other : e'.state ≡ e.state → e'.queue ≡ e.queue → IsGood b e'
  IsGood-other p q = record {
    fixed_kept = same ∙ g.fixed_kept;
    awake = ap (λ s. is_llama_cpp b.cfg && is_asleep s) p ∙ g.awake;
    queue_fits = ground (arith, q);
  }

  -- The new state is none in which a model is asleep, or the model may sleep.
  pub IsGood-awake : is_asleep e'.state ≡ false → e'.queue ≡ e.queue → IsGood b e'
  IsGood-awake p q = record {
    fixed_kept = same ∙ g.fixed_kept;
    awake = ground arith;
    queue_fits = ground (arith, q);
  }

  pub IsGood-vllm : is_llama_cpp b.cfg ≡ false → e'.queue ≡ e.queue → IsGood b e'
  IsGood-vllm p q = record {
    fixed_kept = same ∙ g.fixed_kept;
    awake = ground arith;
    queue_fits = ground (arith, q);
  }

  pub IsGood-queue : e'.state ≡ e.state → length e'.queue ≤ b.queue_cap → IsGood b e'
  IsGood-queue p q = record {
    fixed_kept = same ∙ g.fixed_kept;
    awake = ap (λ s. is_llama_cpp b.cfg && is_asleep s) p ∙ g.awake;
    queue_fits = q;
  }

-- A model that is asleep is not of llama_cpp.
pub asleep-vllm :
    {b e : ModelEntry} → IsGood b e → is_asleep e.state ≡ true → is_llama_cpp b.cfg ≡ false
asleep-vllm {b} {e} g h = ground arith

module _ (born : ℕ → ModelEntry) where
  -- Every entry of the heap is good.
  abbrev pub Inv : Orchestrator → Type 0
  Inv o = (j : ℕ) → IsGood (born j) (o.entry j)

  -- The other goroutines keep the invariant.
  abbrev pub Rely : World → Type 0
  Rely w = (n : ℕ) (o : Orchestrator) → Inv o → Inv (w.others n o)

abbrev pub Post : {A : Type 0} → (A → Type 0) → Outcome A → Type 0
Post Q (done a) = Q a
Post Q (fault e) = Unit

-- An action keeps the invariant, and its result, if it has one, satisfies `Q`.
pub record Keeps {A : Type 0} (born : ℕ → ModelEntry) (Q : A → Type 0) (m : M A) : Type 0 where
  pub keeps :
      (w : World) (o : Orchestrator)
      → Rely born w
      → Inv born o
      → Post Q (m w o).0 × Inv born (m w o).1

abbrev pub Any : {A : Type 0} → A → Type 0
Any a = Unit

weak-Post : {A : Type 0} (r : Outcome {0} A) → Post Any r
weak-Post (done a) = tt
weak-Post (fault e) = tt

module _ {born : ℕ → ModelEntry} where
  pub set_entry-Inv :
      (me : ℕ) (e : ModelEntry) (o : Orchestrator)
      → IsGood (born me) e
      → Inv born o
      → Inv born (set_entry me e o)
  set_entry-Inv me e o g h j = go (j == me) (λ q. (==_iff j me).0 q)
    where
      go : (b : Bool) → (b ≡ true → j ≡ me) → IsGood (born j) (if b then e else o.entry j)
      go true same = subst (λ i. IsGood (born i) e) (sym (same refl)) g
      go false same = h j

  then-Post :
      {A B : Type 0} {Q : A → Type 0} {R : B → Type 0} (r : Outcome {0} A) (f : A → M B) (w : World)
      (o : Orchestrator)
      → ((a : A) → Q a → Keeps born R (f a))
      → Rely born w
      → Post Q r × Inv born o
      → Post R (and_then r f w o).0 × Inv born (and_then r f w o).1
  then-Post (done a) f w o k rely (q, h) = (k a q).keeps w o rely h
  then-Post (fault e) f w o k rely (q, h) = (tt, h)

  pub Keeps-bind :
      {A B : Type 0} {Q : A → Type 0} {R : B → Type 0} (m : M A) {f : A → M B}
      → Keeps born Q m
      → ((a : A) → Q a → Keeps born R (f a))
      → Keeps born R (m >>= f)
  Keeps-bind m {f} h k = record {
    keeps = λ w o rely i. then-Post (m w o).0 f w (m w o).1 k rely (h.keeps w o rely i);
  }

  pub Keeps-if :
      {A : Type 0} {Q : A → Type 0} (b : Bool) {m k : M A}
      → (b ≡ true → Keeps born Q m)
      → (b ≡ false → Keeps born Q k)
      → Keeps born Q (if b then m else k)
  Keeps-if true h h' = h refl
  Keeps-if false h h' = h' refl

  pub Keeps-pure : {A : Type 0} {Q : A → Type 0} (a : A) → Q a → Keeps born Q (pure a)
  Keeps-pure a q = record { keeps = λ w o rely i. (q, i) }

  pub Keeps-fail : {A : Type 0} {Q : A → Type 0} {e : Fault} → Keeps born Q (fail e)
  Keeps-fail = record { keeps = λ w o rely i. (tt, i) }

  pub Keeps-get : Keeps born (Inv born) get
  Keeps-get = record { keeps = λ w o rely i. (i, i) }

  pub Keeps-pause : Keeps born Any pause
  Keeps-pause = record { keeps = λ w o rely i. (tt, rely o.moment o i) }

  pub Keeps-ask : {A : Type 0} (f : World → ℕ → A) → Keeps born Any (ask f)
  Keeps-ask f = record { keeps = λ w o rely i. (tt, rely o.moment o i) }

  pub Keeps-clock : Keeps born Any clock
  Keeps-clock = record { keeps = λ w o rely i. (tt, i) }

  pub Keeps-locked : (me : ℕ) → Keeps born (IsGood (born me)) (locked me)
  Keeps-locked me = record { keeps = λ w o rely i. (rely o.moment o i me, rely o.moment o i) }

  pub Keeps-put : (me : ℕ) (e : ModelEntry) → IsGood (born me) e → Keeps born Any (put me e)
  Keeps-put me e g = record { keeps = λ w o rely i. (tt, set_entry-Inv me e o g i) }

  -- A change that leaves the entries alone, or keeps the invariant for another reason.
  pub Keeps-modify :
      (f : Orchestrator → Orchestrator)
      → ((o : Orchestrator) → Inv born o → Inv born (f o))
      → Keeps born Any (modify f)
  Keeps-modify f h = record { keeps = λ w o rely i. (tt, h o i) }

  pub Keeps-tell : (ev : Event) → Keeps born Any (tell ev)
  Keeps-tell ev = record { keeps = λ w o rely i. (tt, i) }

  pub Keeps-refresh : Keeps born Any refresh
  unfolding refresh
  Keeps-refresh = record { keeps = λ w o rely i. (tt, rely o.moment o i) }

  pub Keeps-weak : {A : Type 0} {Q : A → Type 0} (m : M A) → Keeps born Q m → Keeps born Any m
  Keeps-weak m h = record { keeps = λ w o rely i. (weak-Post (m w o).0, (h.keeps w o rely i).1) }

  -- The two steps `locked` and `put` that read and change an entry, and the action after them.
  pub Keeps-locked_then :
      {B : Type 0} {R : B → Type 0} (me : ℕ) {f : ModelEntry → M B}
      → ((e : ModelEntry) → IsGood (born me) e → Keeps born R (f e))
      → Keeps born R (locked me >>= f)
  Keeps-locked_then me k = Keeps-bind (locked me) (Keeps-locked me) k

  pub Keeps-put_then :
      {B : Type 0} {R : B → Type 0} (me : ℕ) (e : ModelEntry) {m : M B}
      → IsGood (born me) e
      → Keeps born R m
      → Keeps born R (put me e >> m)
  Keeps-put_then me e g k = Keeps-bind (put me e) (Keeps-put me e g) λ _ _. k

  pub Keeps-then :
      {A B : Type 0} {R : B → Type 0} (m : M A) {f : A → M B}
      → Keeps born Any m
      → ((a : A) → Keeps born R (f a))
      → Keeps born R (m >>= f)
  Keeps-then m h k = Keeps-bind m h λ a _. k a
