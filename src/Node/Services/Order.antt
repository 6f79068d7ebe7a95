-- ===== src/Node/Services/Order.antt =====
-- runtime.go: which services run after `Start`, and in which order `Stop` stops them.
use node_decent_system.Prelude.{
  ℕ, zero, suc, ◌≤◌, ◌<◌, ◌≡◌, refl, ap, subst, ◌∙◌, Option, none, some, List, [], ◌∷◌, ◌++◌,
  reverse, arith, length, length-append, get_elem?, Error,
}
use mathlib.Core.List.{reverse-cons, reverse-reverse}
use node_decent_system.Node.Services.{
  Service, start_services, inited, started, stop_below, stop_at, stop,
}

module _ {W : Type 0} where
  -- All services of a list come up, one after the other, and take the world from `w` to `w'`.
  pub data Up : List (Service W) → W → W → Type 0 where
    none_left : {w w' : W} → w ≡ w' → Up [] w w'
    one_up :
        {s : Service W} {ss : List (Service W)} {w w' : W} (v v' : W)
        → s.init w ≡ (v, none)
        → s.start v ≡ (v', none)
        → Up ss v' w'
        → Up (s ∷ ss) w w'

  -- A service fails, in its `Init` or in its `Start`.
  pub data Fails (s : Service W) (w w' : W) (e : Error) : Type 0 where
    in_init : s.init w ≡ (w', some e) → Fails s w w' e
    in_start : (v : W) → s.init w ≡ (v, none) → s.start v ≡ (w', some e) → Fails s w w' e

  -- The services up to one that fails; those behind it are not touched.
  pub record Halted (ss : List (Service W)) (w w' : W) : Type 0 where
    pub before : List (Service W)
    pub culprit : Service W
    pub behind : List (Service W)
    pub reached : W
    pub error : Error
    pub all : ss ≡ before ++ culprit ∷ behind
    pub up : Up before w reached
    pub fault : Fails culprit reached w' error

  halts_here :
      (s : Service W) (ss : List (Service W)) (w w' : W) (e : Error)
      → Fails s w w' e
      → Halted (s ∷ ss) w w'
  halts_here s ss w w' e f = record {
    before = [];
    culprit = s;
    behind = ss;
    reached = w;
    error = e;
    all = refl;
    up = Up.none_left refl;
    fault = f;
  }

  halts_later :
      (s : Service W) (ss : List (Service W)) (w v v' w' : W)
      → s.init w ≡ (v, none)
      → s.start v ≡ (v', none)
      → Halted ss v' w'
      → Halted (s ∷ ss) w w'
  halts_later s ss w v v' w' i t h = record {
    before = s ∷ h.before;
    culprit = h.culprit;
    behind = h.behind;
    reached = h.reached;
    error = h.error;
    all = ap (◌∷◌ s) h.all;
    up = Up.one_up v v' i t h.up;
    fault = h.fault;
  }

  -- The outcome of `Start`: the world, and whether all services are up or one has failed.
  abbrev pub Outcome : List (Service W) → W → W × Option Error → Type 0
  Outcome ss w (w', none) = Up ss w w'
  Outcome ss w (w', some e) = Halted ss w w'

  Outcome-later :
      (s : Service W) (ss : List (Service W)) (w v v' : W) (r : W × Option Error)
      → s.init w ≡ (v, none)
      → s.start v ≡ (v', none)
      → Outcome ss v' r
      → Outcome (s ∷ ss) w r
  Outcome-later s ss w v v' (w', none) i t o = Up.one_up v v' i t o
  Outcome-later s ss w v v' (w', some e) i t o = halts_later s ss w v v' w' i t o

  started-Outcome :
      (s : Service W) (ss : List (Service W)) (w v : W) (r : W × Option Error)
      (rest : W → W × Option Error)
      → s.init w ≡ (v, none)
      → s.start v ≡ r
      → ((u : W) → Outcome ss u (rest u))
      → Outcome (s ∷ ss) w (started s r rest)
  unfolding started
  started-Outcome s ss w v (v', some e) rest i t ih = halts_here s ss w v' e (Fails.in_start v i t)
  started-Outcome s ss w v (v', none) rest i t ih = Outcome-later s ss w v v' (rest v') i t (ih v')

  inited-Outcome :
      (s : Service W) (ss : List (Service W)) (w : W) (r : W × Option Error)
      (rest : W → W × Option Error)
      → s.init w ≡ r
      → ((u : W) → Outcome ss u (rest u))
      → Outcome (s ∷ ss) w (inited s r rest)
  unfolding inited
  inited-Outcome s ss w (v, some e) rest i ih = halts_here s ss w v e (Fails.in_init i)
  inited-Outcome s ss w (v, none) rest i ih = started-Outcome s ss w v (s.start v) rest i refl ih

  -- `Start` without an error has initialised and started every service, in the order of their
  -- registration. With an error it has stopped at the first service that failed: those before it
  -- run on, those behind it were not touched.
  pub start_services-Outcome : (ss : List (Service W)) (w : W) → Outcome ss w (start_services ss w)
  unfolding start_services
  start_services-Outcome [] w = Up.none_left refl
  start_services-Outcome (s ∷ ss) w =
      inited-Outcome s ss w (s.init w) (λ w'. start_services ss w') refl
        (λ u. start_services-Outcome ss u)

  -- The services stopped one after the other, errors ignored.
  abbrev pub stop_each : List (Service W) → W → W
  stop_each [] w = w
  stop_each (s ∷ ss) w = stop_each ss (s.stop w).0

  get_elem?-append :
      (ss : List (Service W)) (s : Service W) → get_elem? (ss ++ s ∷ []) (length ss) ≡ some s
  get_elem?-append [] s = refl
  get_elem?-append (t ∷ ss) s = get_elem?-append ss s

  get_elem?-append_left :
      (ss ts : List (Service W)) (i : ℕ) → i < length ss → get_elem? (ss ++ ts) i ≡ get_elem? ss i
  get_elem?-append_left [] ts i h = absurd (omega arith)
  get_elem?-append_left (s ∷ ss) ts zero h = refl
  get_elem?-append_left (s ∷ ss) ts (suc i) h = get_elem?-append_left ss ts i (omega arith)

  stop_below-append :
      (n : ℕ) (ss ts : List (Service W)) (w : W)
      → n ≤ length ss
      → stop_below n (ss ++ ts) w ≡ stop_below n ss w
  unfolding stop_below
  stop_below-append zero ss ts w h = refl
  stop_below-append (suc n) ss ts w h =
      stop_below-append n ss ts (stop_at (get_elem? (ss ++ ts) n) w) (omega arith)
      ∙ ap (λ o. stop_below n ss (stop_at o w)) (get_elem?-append_left ss ts n (omega arith))

  stop_below-snoc :
      (n : ℕ) (ss : List (Service W)) (s : Service W) (w : W)
      → n ≡ suc (length ss)
      → stop_below n (ss ++ s ∷ []) w ≡ stop_below (length ss) ss (s.stop w).0
  unfolding stop_below stop_at
  stop_below-snoc n ss s w e =
      ap (λ k. stop_below k (ss ++ s ∷ []) w) e
      ∙ ap (λ o. stop_below (length ss) (ss ++ s ∷ []) (stop_at o w)) (get_elem?-append ss s)
      ∙ stop_below-append (length ss) ss (s ∷ []) (s.stop w).0 (omega arith)

  stop_below-reverse :
      (rs : List (Service W)) (w : W)
      → stop_below (length (reverse rs)) (reverse rs) w ≡ stop_each rs w
  unfolding stop_below
  stop_below-reverse [] w = refl
  stop_below-reverse (s ∷ rs) w = rw (reverse-cons s rs) (
      stop_below-snoc (length (reverse rs ++ s ∷ [])) (reverse rs) s w
        (omega (arith, length-append (reverse rs) (s ∷ [])))
      ∙ stop_below-reverse rs (s.stop w).0)

  -- `Stop` cancels the context, stops every service, the last registered first and whatever errors
  -- occur, and then closes the storage.
  pub stop-reverse :
      (cancel : W → W) (close_storage : W → W × Option Error) (ss : List (Service W)) (w : W)
      → stop cancel close_storage ss w ≡ close_storage (stop_each (reverse ss) (cancel w))
  unfolding stop
  stop-reverse cancel close_storage ss w = ap close_storage (
      subst (λ ts. stop_below (length ts) ts (cancel w) ≡ stop_each (reverse ss) (cancel w))
        (reverse-reverse ss) (stop_below-reverse (reverse ss) (cancel w)))
