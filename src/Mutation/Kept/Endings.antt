-- ===== src/Mutation/Kept/Endings.antt =====
-- The event that ends a mutation of l850gl-mm-bridge/src/ubus_glib.c with a failure, and the point of
-- the conversation at which it finds the operation.
use mathlib.Core.Path.{subst⁻¹, subst}
use luci_app_l850gl_mm.Base.{◌≡◌, ◌++◌, arith, ◌∷◌, [], refl, ap, ◌∙◌}
use luci_app_l850gl_mm.Mutation.Kept.{Kept, Surroundings, Point, ◌≡◌, Places, Talk, Spoken}
use luci_app_l850gl_mm.Mutation.Run.{run, step, Event}
use luci_app_l850gl_mm.Mutation.Kept.Steps.{step_at-Kept}
use luci_app_l850gl_mm.Mutation.{
  finished, waiting, failure, success, Request, Outcome, List, World, Failure, Operation, Entry,
  Reply, Bool,
}

-- The event that ended an operation, which waited before it at a point, and the conversation then.
pub record IsEnding (request : Request) (start : Outcome) (events : List (Surroundings × Event))
    (f : Failure) (conversation : List Entry) : Type 0 where
  pub before : List (Surroundings × Event)
  pub after : List (Surroundings × Event)
  pub surroundings : Surroundings
  pub event : Event
  pub split : events ≡ before ++ ((surroundings, event) ∷ after)
  pub world : World
  pub operation : Operation
  pub waited : run before start ≡ (world, waiting operation)
  pub point : Point
  pub placed : Places operation point
  pub talk : Talk request point world.conversation
  pub spoken : Spoken request point conversation f.state

run-finished :
    (events : List (Surroundings × Event)) (w : World) (reply : Reply) (sent : Bool)
    → run events (w, finished reply sent) ≡ (w, finished reply sent)
unfolding run step
run-finished [] w reply sent = refl
run-finished (e ∷ events) w reply sent = run-finished events w reply sent

-- The events after the first one, from what the first one leaves.
after_first :
    (request : Request) (s : Surroundings) (event : Event) (events : List (Surroundings × Event))
    (w : World) (o : Operation) (point : Point) {f : Failure} {sent : Bool}
    → Places o point
    → Talk request point w.conversation
    → ((v : World) (p : Operation)
        → Kept request point (v, waiting p)
        → (run events (v, waiting p)).1 ≡ finished (failure f) sent
        → IsEnding request (v, waiting p) events f (run events (v, waiting p)).0.conversation)
    → (next : Outcome) → step s event (w, waiting o) ≡ next
    → Kept request point next
    → (run events next).1 ≡ finished (failure f) sent
    → IsEnding request (w, waiting o) ((s, event) ∷ events) f (run events next).0.conversation
unfolding run Kept
after_first request s event events w o point placed t rest (v, waiting p) e kept done =
    let later = rest v p kept done in
    record {
      before = (s, event) ∷ later.before;
      after = later.after;
      surroundings = later.surroundings;
      event = later.event;
      split = ap (◌∷◌ (s, event)) later.split;
      world = later.world;
      operation = later.operation;
      waited = ap (run later.before) e ∙ later.waited;
      point = later.point;
      placed = later.placed;
      talk = later.talk;
      spoken = later.spoken;
    }
after_first request s event events w o point placed t rest (v, finished (success r) q) e kept done =
    absurd (ground (arith, done, run-finished events v (success r) q))
after_first request s event events w o point {f} placed t rest (v, finished (failure g) q) e kept
      done =
    let over = run-finished events v (failure g) q in
    let same : g ≡ f = ground (arith, done, over) in
    record {
      before = [];
      after = events;
      surroundings = s;
      event = event;
      split = refl;
      world = w;
      operation = o;
      waited = refl;
      point = point;
      placed = placed;
      talk = t;
      spoken =
          subst⁻¹ (λ (x : Outcome). Spoken request point x.0.conversation f.state) over
            (subst (λ (x : Failure). Spoken request point v.conversation x.state) same kept);
    }

pub run-IsEnding :
    (request : Request) (events : List (Surroundings × Event)) (w : World) (o : Operation)
    (before : Point) {f : Failure} {sent : Bool}
    → Kept request before (w, waiting o)
    → (run events (w, waiting o)).1 ≡ finished (failure f) sent
    → IsEnding request (w, waiting o) events f (run events (w, waiting o)).0.conversation
unfolding run Kept
run-IsEnding request [] w o before kept done = absurd (ground (arith, done))
run-IsEnding request ((s, event) ∷ events) w o before (same, point, placed, t) done =
    after_first request s event events w o point placed t
      (λ v p. run-IsEnding request events v p point) (step s event (w, waiting o)) refl
      (step_at-Kept request s event w o point same placed t) done
