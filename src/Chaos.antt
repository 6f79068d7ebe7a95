-- ===== src/Chaos.antt =====
-- testing/chaos/fault_injector.go: faults that the tests inject. `rand.Rand` and the numbers of type
-- `float64` are parameters.
use node_decent_system.Prelude.{
  ℕ, ◌≡◌, refl, sym, ap, ◌∙◌, Bool, true, false, Bool-cases, inl, inr, Option, none, some, List, [],
  ◌∷◌, ◌++◌, ltb, if◌then◌else◌, Bytes, Error, lit, str_eq,
}
use node_decent_system.GoMap.{GoMap, get, put, delete, get-put, get-delete}

-- A source of random numbers.
pub record Rand (Float : Type 0) : Type 1 where
  pub Source : Type 0
  pub intn : Source → ℕ → Source × ℕ
  pub float64 : Source → Source × Float
  pub below : Float → Float → Bool

pub record FaultConfig (Float : Type 0) : Type 0 where
  pub partition_ratio : Float
  pub max_delay_ms : ℕ
  pub crash_probability : Float

pub record FaultInjector (Float Source : Type 0) : Type 0 where
  pub cfg : FaultConfig Float
  pub partitioned : GoMap Bool
  pub crashed_nodes : GoMap Bool
  pub rnd : Source

-- A missing key reads as false.
is_set : Option Bool → Bool
is_set none = false
is_set (some b) = b

if-is_set :
    (b v : Bool) (o : Option Bool) → is_set (if b then some v else o) ≡ (if b then v else is_set o)
unfolding is_set
if-is_set true v o = refl
if-is_set false v o = refl

if-is_set-none :
    (b : Bool) (o : Option Bool) → is_set (if b then none else o) ≡ (if b then false else is_set o)
unfolding is_set
if-is_set-none true o = refl
if-is_set-none false o = refl

module _ {Float Source : Type 0} where
  unfoldable pub new_fault_injector : FaultConfig Float → Source → FaultInjector Float Source
  new_fault_injector cfg rnd = record { cfg = cfg; partitioned = []; crashed_nodes = []; rnd = rnd }

  unfoldable pub inject_partition : FaultInjector Float Source → Bytes → FaultInjector Float Source
  inject_partition f node_id = record f { partitioned = put f.partitioned node_id true }

  unfoldable pub heal_partition : FaultInjector Float Source → Bytes → FaultInjector Float Source
  heal_partition f node_id = record f { partitioned = delete f.partitioned node_id }

  unfoldable pub is_partitioned : FaultInjector Float Source → Bytes → Bool
  unfolding is_set
  is_partitioned f node_id = is_set (get f.partitioned node_id)

  unfoldable pub execute_node_crash :
      FaultInjector Float Source → Bytes → FaultInjector Float Source × Error
  execute_node_crash f node_id = (
    record f { crashed_nodes = put f.crashed_nodes node_id true },
    lit "simulated crash executed for node: " ++ node_id,
  )

  unfoldable pub is_node_crashed : FaultInjector Float Source → Bytes → Bool
  unfolding is_set
  is_node_crashed f node_id = is_set (get f.crashed_nodes node_id)

module _ {Float : Type 0} (R : Rand Float) where
  -- With no delay configured, the source is not asked. `over` says how the wait ends: the delay is
  -- over, or the context is done first, with an error.
  unfoldable pub simulate_message_latency :
      FaultInjector Float R.Source
      → (ℕ → Option Error)
      → FaultInjector Float R.Source × Option Error
  simulate_message_latency f over =
      let (rnd', delay) = R.intn f.rnd f.cfg.max_delay_ms in
      if ltb 0 f.cfg.max_delay_ms then (record f { rnd = rnd' }, over delay) else (f, none)

  unfoldable pub should_drop_message :
      FaultInjector Float R.Source → Bytes → FaultInjector Float R.Source × Bool
  should_drop_message f node_id =
      let (rnd', x) = R.float64 f.rnd in
      if is_partitioned f node_id
      then (f, true)
      else (record f { rnd = rnd' }, R.below x f.cfg.partition_ratio)

  -- What a test does with the injector.
  pub data Fault : Type 0 where
    injects heals crashes drops : Bytes → Fault
    delays : (ℕ → Option Error) → Fault

  unfoldable pub after_fault : FaultInjector Float R.Source → Fault → FaultInjector Float R.Source
  after_fault f (injects n) = inject_partition f n
  after_fault f (heals n) = heal_partition f n
  after_fault f (crashes n) = (execute_node_crash f n).0
  after_fault f (drops n) = (should_drop_message f n).0
  after_fault f (delays over) = (simulate_message_latency f over).0

  unfoldable pub after_faults :
      FaultInjector Float R.Source → List Fault → FaultInjector Float R.Source
  after_faults f [] = f
  after_faults f (x ∷ xs) = after_faults (after_fault f x) xs

  -- What a history says of a node's partition and of its crash.
  abbrev pub cut_off : Bytes → List Fault → Bool → Bool
  cut_off n [] b = b
  cut_off n (injects m ∷ xs) b = cut_off n xs (if str_eq m n then true else b)
  cut_off n (heals m ∷ xs) b = cut_off n xs (if str_eq m n then false else b)
  cut_off n (crashes m ∷ xs) b = cut_off n xs b
  cut_off n (drops m ∷ xs) b = cut_off n xs b
  cut_off n (delays over ∷ xs) b = cut_off n xs b

  abbrev pub crashed : Bytes → List Fault → Bool → Bool
  crashed n [] b = b
  crashed n (crashes m ∷ xs) b = crashed n xs (if str_eq m n then true else b)
  crashed n (injects m ∷ xs) b = crashed n xs b
  crashed n (heals m ∷ xs) b = crashed n xs b
  crashed n (drops m ∷ xs) b = crashed n xs b
  crashed n (delays over ∷ xs) b = crashed n xs b

  cut_off-cons :
      (n : Bytes) (x : Fault) (xs : List Fault) (b : Bool)
      → cut_off n (x ∷ xs) b ≡ cut_off n xs (cut_off n (x ∷ []) b)
  cut_off-cons n (injects m) xs b = refl
  cut_off-cons n (heals m) xs b = refl
  cut_off-cons n (crashes m) xs b = refl
  cut_off-cons n (drops m) xs b = refl
  cut_off-cons n (delays over) xs b = refl

  crashed-cons :
      (n : Bytes) (x : Fault) (xs : List Fault) (b : Bool)
      → crashed n (x ∷ xs) b ≡ crashed n xs (crashed n (x ∷ []) b)
  crashed-cons n (injects m) xs b = refl
  crashed-cons n (heals m) xs b = refl
  crashed-cons n (crashes m) xs b = refl
  crashed-cons n (drops m) xs b = refl
  crashed-cons n (delays over) xs b = refl

  -- Asking the random source changes nothing else.
  should_drop_message-sets :
      (f : FaultInjector Float R.Source) (m : Bytes)
      → ((should_drop_message f m).0.partitioned ≡ f.partitioned)
        × ((should_drop_message f m).0.crashed_nodes ≡ f.crashed_nodes)
  unfolding should_drop_message
  should_drop_message-sets f m = elim (Bool-cases (is_partitioned f m)) [
    | inl e ↦ rw e (refl, refl)
    | inr e ↦ rw e (refl, refl)
  ]

  simulate_message_latency-sets :
      (f : FaultInjector Float R.Source) (over : ℕ → Option Error)
      → ((simulate_message_latency f over).0.partitioned ≡ f.partitioned)
        × ((simulate_message_latency f over).0.crashed_nodes ≡ f.crashed_nodes)
  unfolding simulate_message_latency
  simulate_message_latency-sets f over = elim (Bool-cases (ltb 0 f.cfg.max_delay_ms)) [
    | inl e ↦ rw e (refl, refl)
    | inr e ↦ rw e (refl, refl)
  ]

  after_fault-status :
      (f : FaultInjector Float R.Source) (x : Fault) (n : Bytes)
      → (is_partitioned (after_fault f x) n ≡ cut_off n (x ∷ []) (is_partitioned f n))
        × (is_node_crashed (after_fault f x) n ≡ crashed n (x ∷ []) (is_node_crashed f n))
  unfolding after_fault is_partitioned is_node_crashed inject_partition heal_partition
      execute_node_crash is_set
  after_fault-status f (injects m) n = (
    ap is_set (get-put f.partitioned m n true) ∙ if-is_set (str_eq m n) true (get f.partitioned n),
    refl,
  )
  after_fault-status f (heals m) n = (
    ap is_set (get-delete f.partitioned m n) ∙ if-is_set-none (str_eq m n) (get f.partitioned n),
    refl,
  )
  after_fault-status f (crashes m) n = (
    refl,
    ap is_set (get-put f.crashed_nodes m n true)
        ∙ if-is_set (str_eq m n) true (get f.crashed_nodes n),
  )
  after_fault-status f (drops m) n =
      let sets = should_drop_message-sets f m in
      (ap (λ g. is_set (get g n)) sets.0, ap (λ g. is_set (get g n)) sets.1)
  after_fault-status f (delays over) n =
      let sets = simulate_message_latency-sets f over in
      (ap (λ g. is_set (get g n)) sets.0, ap (λ g. is_set (get g n)) sets.1)

  -- A node is partitioned just if the last injection or healing of its partition is an injection,
  -- and crashed just if it was crashed at some time; while it is partitioned, each message to it is
  -- dropped, and the random source is left alone.
  pub after_faults-status :
      (f : FaultInjector Float R.Source) (xs : List Fault) (n : Bytes)
      → (is_partitioned (after_faults f xs) n ≡ cut_off n xs (is_partitioned f n))
        × (is_node_crashed (after_faults f xs) n ≡ crashed n xs (is_node_crashed f n))
        × (cut_off n xs (is_partitioned f n) ≡ true
            → should_drop_message (after_faults f xs) n ≡ (after_faults f xs, true))
  unfolding after_faults
  after_faults-status f [] n = (refl, refl, λ cut. unfold should_drop_message in rw cut refl)
  after_faults-status f (x ∷ xs) n =
      let now = after_fault-status f x n in
      let rest = after_faults-status (after_fault f x) xs n in
      let cut : cut_off n xs (is_partitioned (after_fault f x) n)
          ≡ cut_off n (x ∷ xs) (is_partitioned f n) =
        ap (cut_off n xs) now.0 ∙ sym (cut_off-cons n x xs (is_partitioned f n)) in
      (
        rest.0 ∙ cut,
        rest.1 ∙ ap (crashed n xs) now.1 ∙ sym (crashed-cons n x xs (is_node_crashed f n)),
        λ is_cut. rest.2 (cut ∙ is_cut),
      )
