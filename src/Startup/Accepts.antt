-- ===== src/Startup/Accepts.antt =====
-- When `main` of crates/trading-engine/src/main.rs gets to an open bus, and what it has done by then.
use mathlib.Core.Option.{some_inj}
use dummy_benchmark.Base.{
  ℕ, zero, suc, ◌≡◌, refl, sym, ap, ◌∙◌, ◌↔◌, false, Option, none, some, List, [], ◌∷◌, ◌++◌,
  if◌then◌else◌, ltb, Bool-cases, inl, inr, arith, ◌<◌, dec_lt,
}
use dummy_benchmark.Text.{Text, Result, ok, err, is_empty}
use dummy_benchmark.CpuList.{parse_cpu_list}
use dummy_benchmark.Host.Pinning.{PinError, out_of_set, cpu_setsize, pin_to_cpu, pin_to_cpu_out}
use dummy_benchmark.Noise.{pin_of, spawn_noise}
use dummy_benchmark.Startup.{
  Machine, join_thread, StartError, Act, pinned, joined, noise, bus_open, Start, continue, act,
  parse, pin_main, join_main, start_noise, Args, start_engine, worker_pin, spawn_workers,
}

module _ {A B : Type 0} (f : A → Start B) where
  pub continue-ok :
      (acts : List Act) (r : Result {0, 0} StartError A) {b : B}
      → (continue acts r f).1 ≡ ok b
      → (a : A) × (r ≡ ok a) × ((f a).1 ≡ ok b)
  unfolding continue
  continue-ok acts (ok a) h = (a, refl, h)
  continue-ok acts (err e) h = absurd (cc)

  continue_done :
      (m : Start A) {acts : List Act} {a : A} {rest : Start B}
      → m ≡ (acts, ok a)
      → f a ≡ rest
      → continue m.0 m.1 f ≡ (acts ++ rest.0, rest.1)
  unfolding continue
  continue_done m {acts} e later =
      ap (λ (s : Start A). continue s.0 s.1 f) e ∙ ap (λ (s : Start B). (acts ++ s.0, s.1)) later

pub ok_inj {ℓ} :
    {E : Type ℓ} {A : Type 0} {x y : A} → ◌≡◌ {A = Result {ℓ, 0} E A} (ok x) (ok y) → x ≡ y
ok_inj {A} {x} h = ap (λ r. elim r [ ok z ↦ z | err e ↦ x ]) h

act-ok {ℓ} :
    {E : Type ℓ} (a : Act) (wrap : E → StartError) (r : Result {ℓ, 0} E Unit)
    → (act a wrap r).1 ≡ ok tt
    → r ≡ ok tt
unfolding act
act-ok a wrap (ok u) h = refl
act-ok a wrap (err e) h = absurd (cc)

act_done {ℓ} :
    {E : Type ℓ} (a : Act) (wrap : E → StartError) (r : Result {ℓ, 0} E Unit)
    → r ≡ ok tt
    → act a wrap r ≡ (a ∷ [], ok tt)
unfolding act
act_done a wrap r h = rw h

parse_done {ℓ} :
    {E : Type ℓ} {A : Type 0} (wrap : E → StartError) (r : Result {ℓ, 0} E A) {x : A}
    → r ≡ ok x
    → parse wrap r ≡ ([], ok x)
unfolding parse
parse_done wrap r h = rw h

parse-ok {ℓ} :
    {E : Type ℓ} {A : Type 0} (wrap : E → StartError) (r : Result {ℓ, 0} E A) {x : A}
    → (parse wrap r).1 ≡ ok x
    → r ≡ ok x
unfolding parse
parse-ok wrap (ok y) h = ap ok (ok_inj h)
parse-ok wrap (err e) h = absurd (cc)

abbrev pin_acts : Option ℕ → List Act
pin_acts none = []
pin_acts (some c) = pinned c ∷ []

abbrev join_acts : Text → List Act
join_acts group = if is_empty group then [] else joined group ∷ []

abbrev noise_acts : ℕ → List ℕ → Text → List Act
noise_acts threads cpus group =
    if ltb 0 threads then noise (spawn_noise threads cpus) group ∷ [] else []

pinned-ok :
    (m : Machine) (o : Option ℕ) (c : ℕ)
    → (pin_main m o).1 ≡ ok tt
    → o ≡ some c
    → pin_to_cpu m.set_affinity c ≡ ok tt
unfolding pin_main
pinned-ok m none c h e = absurd (cc)
pinned-ok m (some d) c h e =
    ap (pin_to_cpu m.set_affinity) (sym (some_inj.0 e))
    ∙ act-ok (pinned d) _ (pin_to_cpu m.set_affinity d) h

pinned-lt : (m : Machine) (c : ℕ) → pin_to_cpu m.set_affinity c ≡ ok tt → c < cpu_setsize
pinned-lt m c done = elim (dec_lt c cpu_setsize) [
  | yes h ↦ h
  | no out ↦ absurd (err_ok (sym (pin_to_cpu_out m.set_affinity c (omega (arith, out))) ∙ done))
]
  where
    err_ok : ◌≡◌ {A = Result {0, 0} PinError Unit} (err out_of_set) (ok tt) → ⊥
    err_ok h = cc

joined-ok :
    (m : Machine) (group : Text)
    → (join_main m group).1 ≡ ok tt
    → is_empty group ≡ false
    → join_thread m group false ≡ ok tt
unfolding join_main
joined-ok m group h e = act-ok (joined group) _ (join_thread m group false) (rw (join_main, e) at h)

pins_done :
    (m : Machine) (o : Option ℕ)
    → ((c : ℕ) → o ≡ some c → pin_to_cpu m.set_affinity c ≡ ok tt)
    → pin_main m o ≡ (pin_acts o, ok tt)
unfolding pin_main act
pins_done m none h = refl
pins_done m (some c) h = rw (h c refl)

joins_done :
    (m : Machine) (group : Text)
    → (is_empty group ≡ false → join_thread m group false ≡ ok tt)
    → join_main m group ≡ (join_acts group, ok tt)
unfolding join_main act
joins_done m group h = elim (Bool-cases (is_empty group)) [
  | inl e ↦ rw (join_main, e)
  | inr e ↦ rw (join_main, e, h e)
]

noise_done :
    (threads : ℕ) (cpus : List ℕ) (group : Text)
    → start_noise threads cpus group ≡ (noise_acts threads cpus group, ok tt)
unfolding start_noise
noise_done threads cpus group = ground arith

-- The acts of a start that succeeds.
abbrev pub acts_of : Args → List ℕ → Text → List Act
acts_of a cpus bus =
    pin_acts a.pin_cpu
    ++ (join_acts a.resctrl_group
        ++ (noise_acts a.noise_threads cpus a.noise_resctrl_group ++ bus_open bus ∷ []))

module _ (m : Machine) (a : Args) (worker_cpus bus : Text) (r : List ℕ × List ℕ) where
  -- Every call that the start asks of the machine succeeds, and both lists parse.
  pub record Accepts : Type 0 where
    pub pins :
        (c : ℕ) → a.pin_cpu ≡ some c → (c < cpu_setsize) × (pin_to_cpu m.set_affinity c ≡ ok tt)
    pub joins : is_empty a.resctrl_group ≡ false → join_thread m a.resctrl_group false ≡ ok tt
    pub workers_parse : parse_cpu_list worker_cpus ≡ ok r.0
    pub noise_parses : parse_cpu_list a.noise_cpus ≡ ok r.1
    pub bus_opens : m.open_bus bus ≡ ok tt

  start_engine-Accepts : (start_engine m a worker_cpus bus).1 ≡ ok r → Accepts
  unfolding start_engine
  start_engine-Accepts h =
      let (_, pins, h1) = continue-ok _ (pin_main m a.pin_cpu).0 (pin_main m a.pin_cpu).1 h in
      let (_, joins, h2) = continue-ok _ _ _ h1 in
      let (workers, w, h3) = continue-ok _ _ _ h2 in
      let (cpus, n, h4) = continue-ok _ _ _ h3 in
      let (_, started, h5) = continue-ok _ _ _ h4 in
      let (_, opens, h6) = continue-ok _ _ _ h5 in
      let same : ◌≡◌ {A = List ℕ × List ℕ} (workers, cpus) r = ok_inj h6 in
      record {
        pins = λ c e. let done = pinned-ok m a.pin_cpu c pins e in (pinned-lt m c done, done);
        joins = λ e. joined-ok m a.resctrl_group joins e;
        workers_parse = parse-ok _ _ w ∙ ap (λ (q : List ℕ × List ℕ). ok q.0) same;
        noise_parses = parse-ok _ _ n ∙ ap (λ (q : List ℕ × List ℕ). ok q.1) same;
        bus_opens = act-ok _ _ _ opens;
      }

  Accepts-start_engine : Accepts → start_engine m a worker_cpus bus ≡ (acts_of a r.1 bus, ok r)
  unfolding start_engine
  Accepts-start_engine k =
      let opens = continue_done _ _ (act_done (bus_open bus) _ (m.open_bus bus) k.bus_opens) refl in
      let starts = continue_done _ _ (noise_done a.noise_threads r.1 a.noise_resctrl_group) opens in
      let noise_parsed =
        continue_done _ _ (parse_done _ (parse_cpu_list a.noise_cpus) k.noise_parses) starts in
      let parsed =
        continue_done _ _ (parse_done _ (parse_cpu_list worker_cpus) k.workers_parse)
          noise_parsed in
      let joins = continue_done _ _ (joins_done m a.resctrl_group k.joins) parsed in
      continue_done _ _ (pins_done m a.pin_cpu (λ c e. (k.pins c e).1)) joins

  -- The start of the engine comes to an open bus, with these CPUs for the workers and the noise, exactly
  -- when every call that it makes succeeds and both lists parse to them: if they are asked for, the
  -- pinning, to a CPU below 1024, and the group; and the bus. It has then pinned itself, joined the
  -- group, started the noise threads and opened the bus, in this order and each only if asked for. What
  -- comes between the bus and the loop is not in it.
  pub start_engine_accepts :
      ((start_engine m a worker_cpus bus).1 ≡ ok r ↔ Accepts)
      × ((start_engine m a worker_cpus bus).1 ≡ ok r
          → (start_engine m a worker_cpus bus).0 ≡ acts_of a r.1 bus)
  start_engine_accepts = (
    (start_engine-Accepts, λ k. ap (λ (s : Start (List ℕ × List ℕ)). s.1) (Accepts-start_engine k)),
    λ h. ap (λ (s : Start (List ℕ × List ℕ)). s.0) (Accepts-start_engine (start_engine-Accepts h)),
  )

worker_pin-pin_of : (cpus : List ℕ) (w : ℕ) → worker_pin cpus w ≡ pin_of cpus w
unfolding worker_pin pin_of
worker_pin-pin_of [] w = refl
worker_pin-pin_of (c ∷ cpus) w = ground arith

-- The workers are pinned as the noise threads are: none without a list, else round robin over it.
pub spawn_workers-spawn_noise : (n : ℕ) (cpus : List ℕ) → spawn_workers n cpus ≡ spawn_noise n cpus
unfolding spawn_workers spawn_noise
spawn_workers-spawn_noise zero cpus = refl
spawn_workers-spawn_noise (suc w) cpus =
    rw (spawn_workers-spawn_noise w cpus, worker_pin-pin_of cpus w)
