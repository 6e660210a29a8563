-- ===== src/Ssh/Connection/Cancelled.antt =====
-- A disconnect, `invalidateClient`, also cancels the connect that is under way.
use mathlib.Core.Path.{subst}
use lab_remote_go.Common.{
  length, ◌^◌, ℕ, ◌+◌, ◌<◌, ◌≤◌, ◌≡◌, refl, sym, ◌⊎◌, inl, inr, Bool, true, false, not, ◌||◌, ◌&&◌,
  List, [], ◌∷◌, Option, none, some, if◌then◌else◌, ltb, ◌==◌, arith,
}
use lab_remote_go.Ssh.Connection.{
  Flight, resting, probing, dialing, holding, Runtime, new_runtime, mark_ended, ConnectStep, begins,
  probe_replies, probe_fails, gives_up, dialed, commits, Action, invalidate, invalidate_if,
  close_next, ends, notices_end, Event, by_connect, by_other, is_client, without, invalidate_client,
  first_flight, invalidate_client_if, close_first, commit, watch_client, connect_step, act, step,
  run,
}

-- A new `Connect` is no part of the events.
abbrev pub NotBegins : Event → Type 0
NotBegins (by_connect begins) = ⊥
NotBegins event = Unit {0}

abbrev pub NoneBegins : List Event → Type 0
NoneBegins [] = Unit {0}
NoneBegins (event ∷ events) = NotBegins event × NoneBegins events

-- of the generation that the connect under way has read
abbrev HasRead : (ℕ → Type 0) → Flight → Type 0
HasRead P resting = Unit {0}
HasRead P (probing g c) = P g
HasRead P (dialing g) = P g
HasRead P (holding g c) = P g

HasRead-map :
    (P Q : ℕ → Type 0) (flight : Flight)
    → ((g : ℕ) → P g → Q g)
    → HasRead P flight
    → HasRead Q flight
HasRead-map P Q resting f h = tt
HasRead-map P Q (probing g c) f h = f g h
HasRead-map P Q (dialing g) f h = f g h
HasRead-map P Q (holding g c) f h = f g h

-- A step of the connect keeps the generation, and what it has read of it.
connect_step-HasRead :
    (P : ℕ → Type 0) (flight : Flight) (s : ConnectStep) (r : Runtime)
    → r.flight ≡ flight
    → P r.generation ⊎ NotBegins (by_connect s)
    → HasRead P flight
    → HasRead P (connect_step flight s r).flight
      × ((connect_step flight s r).generation ≡ r.generation)
unfolding connect_step commit invalidate_client_if
connect_step-HasRead P resting begins r e (inl now) h = (first r.client, refl)
  where
    first : (client : Option ℕ) → HasRead P (first_flight r.generation client)
    first none = now
    first (some c) = now
connect_step-HasRead P resting begins r e (inr n) h = absurd n
connect_step-HasRead P (probing g c) probe_replies r e now h =
    (landed (is_client c r.client && r.generation == g), refl)
  where
    landed : (b : Bool) → HasRead P (if b then resting else dialing g)
    landed true = tt
    landed false = h
connect_step-HasRead P (probing g c) probe_fails r e now h = (h, refl)
connect_step-HasRead P (dialing g) gives_up r e now h = (tt, refl)
connect_step-HasRead P (dialing g) dialed r e now h = (h, refl)
connect_step-HasRead P (holding g c) (commits ctx_done) r e now h =
    decided (not (r.generation == g) || ctx_done)
  where
    decided :
        (b : Bool)
        → let r' : Runtime =
            if b
            then record r { closing = c ∷ r.closing; flight = resting }
            else record r { client = some c; flight = resting } in
          HasRead P r'.flight × (r'.generation ≡ r.generation)
    decided true = (tt, refl)
    decided false = (tt, refl)
connect_step-HasRead P flight s r e now h = (subst (λ f. HasRead P f) (sym e) h, refl)

-- The others leave the connect alone, and the generation, while it is short of its end, grows by one at
-- most.
abbrev Grows : Runtime → Runtime → Type 0
Grows r r' =
    (r'.flight ≡ r.flight) × (r.generation ≤ r'.generation) × (r'.generation ≤ r.generation + 1)

act-Grows : (a : Action) (r : Runtime) → r.generation + 1 < 2 ^ 64 → Grows r (act a r)
unfolding act invalidate_client invalidate_client_if watch_client
act-Grows invalidate r h = (refl, omega arith, omega arith)
act-Grows (invalidate_if c) r h = ground arith
act-Grows close_next r h = first r.closing
  where
    first : (closing : List ℕ) → Grows r (close_first closing r)
    first [] = (refl, omega arith, omega arith)
    first (c ∷ closing) = (refl, omega arith, omega arith)
act-Grows (ends c) r h = ground arith
act-Grows (notices_end c) r h = ground arith

-- A connect has read no later generation than the runtime's.
abbrev Bounded : Runtime → Type 0
Bounded r = HasRead (λ g. g ≤ r.generation) r.flight

step-Bounded :
    (event : Event) (r : Runtime)
    → r.generation + 1 < 2 ^ 64
    → Bounded r
    → Bounded (step event r) × ((step event r).generation ≤ r.generation + 1)
unfolding step
step-Bounded (by_connect s) r small h =
    let (read, same) =
      connect_step-HasRead (λ g. g ≤ r.generation) r.flight s r refl (inl (omega arith)) h in
    (
      HasRead-map (λ g. g ≤ r.generation) (λ g. g ≤ (connect_step r.flight s r).generation)
          (connect_step r.flight s r).flight (λ g le. omega (arith, le, same)) read,
      omega (arith, same),
    )
step-Bounded (by_other a) r small h =
    let (same, grows, little) = act-Grows a r small in
    (
      HasRead-map (λ g. g ≤ r.generation) (λ g. g ≤ (act a r).generation) (act a r).flight
          (λ g le. omega (arith, le, grows))
          (subst (λ f. HasRead (λ g. g ≤ r.generation) f) (sym same) h),
      little,
    )

run-Bounded :
    (events : List Event) (r : Runtime)
    → r.generation + length events < 2 ^ 64
    → Bounded r
    → Bounded (run events r) × ((run events r).generation ≤ r.generation + length events)
unfolding run
run-Bounded [] r small h = (h, omega arith)
run-Bounded (event ∷ events) r small h =
    let (now, little) = step-Bounded event r (omega arith) h in
    let (later, bound) = run-Bounded events (step event r) (omega (arith, little)) now in
    (later, omega (arith, little, bound))

-- Nothing is installed, and what the connect has read is past.
abbrev Stale : Runtime → Type 0
Stale r = (r.client ≡ none) × HasRead (λ g. g < r.generation) r.flight

connect_step-none :
    (flight : Flight) (s : ConnectStep) (r : Runtime)
    → r.client ≡ none
    → HasRead (λ g. g < r.generation) flight
    → (connect_step flight s r).client ≡ none
unfolding connect_step commit invalidate_client_if
connect_step-none (probing g c) probe_fails r e h = rw e refl
connect_step-none (holding g c) (commits ctx_done) r e h =
    let other : (r.generation == g) ≡ false = ground arith in rw other e
connect_step-none resting begins r e h = e
connect_step-none (dialing g) gives_up r e h = e
connect_step-none (dialing g) dialed r e h = e
connect_step-none flight s r e h = e

either-none :
    (b : Bool) (x y : Runtime)
    → x.client ≡ none
    → y.client ≡ none
    → (if b then x else y).client ≡ none
either-none true x y e f = e
either-none false x y e f = f

without-none : (c : ℕ) (client : Option ℕ) → client ≡ none → without c client ≡ none
without-none c none e = refl
without-none c (some d) e = absurd (cc)

act-none : (a : Action) (r : Runtime) → r.client ≡ none → (act a r).client ≡ none
unfolding act invalidate_client invalidate_client_if watch_client
act-none invalidate r e = refl
act-none (invalidate_if c) r e =
    either-none (ltb c r.created) (invalidate_client_if c r) r (without-none c r.client e) e
act-none close_next r e = first r.closing
  where
    first : (closing : List ℕ) → (close_first closing r).client ≡ none
    first [] = e
    first (c ∷ closing) = e
act-none (ends c) r e =
    either-none (ltb c r.created) (record r { ended = mark_ended c r.ended }) r e e
act-none (notices_end c) r e =
    either-none (r.ended c) (record r { client = without c r.client }) r (without-none c r.client e)
      e

step-Stale :
    (event : Event) (r : Runtime)
    → NotBegins event
    → r.generation + 1 < 2 ^ 64
    → Stale r
    → Stale (step event r) × ((step event r).generation ≤ r.generation + 1)
unfolding step
step-Stale (by_connect s) r n small (empty, past) =
    let (read, same) =
      connect_step-HasRead (λ g. g < r.generation) r.flight s r refl (inr n) past in
    (
      (
        connect_step-none r.flight s r empty past,
        HasRead-map (λ g. g < r.generation) (λ g. g < (connect_step r.flight s r).generation)
            (connect_step r.flight s r).flight (λ g lt. omega (arith, lt, same)) read,
      ),
      omega (arith, same),
    )
step-Stale (by_other a) r n small (empty, past) =
    let (same, grows, little) = act-Grows a r small in
    (
      (
        act-none a r empty,
        HasRead-map (λ g. g < r.generation) (λ g. g < (act a r).generation) (act a r).flight
            (λ g lt. omega (arith, lt, grows))
            (subst (λ f. HasRead (λ g. g < r.generation) f) (sym same) past),
      ),
      little,
    )

run-Stale :
    (events : List Event) (r : Runtime)
    → NoneBegins events
    → r.generation + length events < 2 ^ 64
    → Stale r
    → Stale (run events r)
unfolding run
run-Stale [] r n small h = h
run-Stale (event ∷ events) r (n, ns) small h =
    let (now, little) = step-Stale event r n (omega arith) h in
    run-Stale events (step event r) ns (omega (arith, little)) now

invalidate-generation :
    (r : Runtime)
    → r.generation + 1 < 2 ^ 64
    → ((invalidate_client r).client ≡ none) × ((invalidate_client r).generation ≡ r.generation + 1)
unfolding invalidate_client
invalidate-generation r h = (refl, omega arith)

-- Whatever happened before a disconnect, and whatever happens after it until a new connect begins, no
-- client is installed, as long as that is fewer events than make the generation, a uint64, come round.
pub invalidate-cancels :
    (before after : List Event)
    → NoneBegins after
    → length before + length after + 1 < 2 ^ 64
    → (run after (step (by_other invalidate) (run before new_runtime))).client ≡ none
unfolding step act invalidate_client
invalidate-cancels before after n small =
    let r : Runtime = run before new_runtime in
    let (bounded, bound) = run-Bounded before new_runtime (omega arith) tt in
    let (same, grown) = invalidate-generation r (omega (arith, bound)) in
    let stale : Stale (invalidate_client r) = (
      same,
      HasRead-map (λ g. g ≤ r.generation) (λ g. g < (invalidate_client r).generation) r.flight
          (λ g le. omega (arith, le, grown)) bounded,
    ) in
    (run-Stale after (invalidate_client r) n (omega (arith, grown, bound)) stale).0
