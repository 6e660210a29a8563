-- ===== src/Ssh/Connection.antt =====
-- internal/sshclient/manager.go and internal/sshclient/connection_health.go: the SSH client of a profile.
-- `Connect` is cut where it waits for the network: the gate lets one in at a time, but at each cut the
-- others may act, those that disconnect, that watch a client, or that wait for a reply of it. A client is
-- a number, the count of those before it.
pub mod Owning
pub mod Connecting
pub mod Owners
pub mod Cancelled
mod Tests
use lab_remote_go.Common.{
  ℕ, suc, ◌+◌, ◌%◌, ◌^◌, Bool, true, false, not, ◌||◌, ◌&&◌, List, [], ◌∷◌, ◌++◌, Option, none,
  some, if◌then◌else◌, ltb, ◌==◌,
}

-- how far a `Connect` is, with the generation that it has read
pub data Flight : Type 0 where
  resting : Flight
  probing : ℕ → ℕ → Flight
  dialing : ℕ → Flight
  holding : ℕ → ℕ → Flight

-- `generation` is a uint64. `closing` are the clients on which somebody is about to call `Close`.
pub record Runtime : Type 0 where
  pub generation : ℕ
  pub client : Option ℕ
  pub created : ℕ
  pub ended : ℕ → Bool
  pub closing : List ℕ
  pub flight : Flight

abbrev pub new_runtime : Runtime
new_runtime = record {
  generation = 0;
  client = none;
  created = 0;
  ended = λ c. false;
  closing = [];
  flight = resting;
}

-- what the connect that is under way meets, and what the others do
pub data ConnectStep : Type 0 where
  begins : ConnectStep
  probe_replies : ConnectStep
  probe_fails : ConnectStep
  gives_up : ConnectStep
  dialed : ConnectStep
  commits : Bool → ConnectStep

pub data Action : Type 0 where
  invalidate : Action
  invalidate_if : ℕ → Action
  close_next : Action
  ends : ℕ → Action
  notices_end : ℕ → Action

pub data Event : Type 0 where
  by_connect : ConnectStep → Event
  by_other : Action → Event

abbrev pub is_client : ℕ → Option ℕ → Bool
is_client c none = false
is_client c (some d) = c == d

abbrev pub mark_ended : ℕ → (ℕ → Bool) → ℕ → Bool
mark_ended c ended = λ d. c == d || ended d

abbrev pub without : ℕ → Option ℕ → Option ℕ
without c client = if is_client c client then none else client

abbrev pub also_closing : Option ℕ → List ℕ → List ℕ
also_closing none closing = closing
also_closing (some c) closing = c ∷ closing

-- `invalidateClient`
unfoldable pub invalidate_client : Runtime → Runtime
invalidate_client r = record r {
  client = none;
  generation = (r.generation + 1) % 2 ^ 64;
  closing = also_closing r.client r.closing;
}

-- `invalidateClientIf`, which closes the client it was given in either case
unfoldable pub invalidate_client_if : ℕ → Runtime → Runtime
invalidate_client_if c r = record r { client = without c r.client; closing = c ∷ r.closing }

abbrev pub first_flight : ℕ → Option ℕ → Flight
first_flight generation none = dialing generation
first_flight generation (some cached) = probing generation cached

-- behind the gate
abbrev pub begin : Runtime → Runtime
begin r = record r { flight = first_flight r.generation r.client }

abbrev pub replied : ℕ → ℕ → Runtime → Runtime
replied generation cached r = record r {
  flight =
      if is_client cached r.client && r.generation == generation
      then resting
      else dialing generation;
}

abbrev pub unanswered : ℕ → ℕ → Runtime → Runtime
unanswered generation cached r =
    let left = invalidate_client_if cached r in record left { flight = dialing generation }

abbrev pub hold : ℕ → Runtime → Runtime
hold generation r = record r { created = suc r.created; flight = holding generation r.created }

unfoldable pub commit : ℕ → ℕ → Bool → Runtime → Runtime
commit generation c ctx_done r =
    if not (r.generation == generation) || ctx_done
    then record r { closing = c ∷ r.closing; flight = resting }
    else record r { client = some c; flight = resting }

abbrev pub close_first : List ℕ → Runtime → Runtime
close_first [] r = r
close_first (c ∷ closing) r = record r { ended = mark_ended c r.ended; closing = closing }

-- `watchClient` once the client's `Wait` has returned
unfoldable pub watch_client : ℕ → Runtime → Runtime
watch_client c r = if r.ended c then record r { client = without c r.client } else r

-- A step that does not fit the flight changes nothing. A connect gives up, by its context or by a
-- failure, only while it dials; a context that ends while it probes makes the probe fail first.
unfoldable pub connect_step : Flight → ConnectStep → Runtime → Runtime
connect_step resting begins r = begin r
connect_step (probing g cached) probe_replies r = replied g cached r
connect_step (probing g cached) probe_fails r = unanswered g cached r
connect_step (dialing g) gives_up r = record r { flight = resting }
connect_step (dialing g) dialed r = hold g r
connect_step (holding g c) (commits ctx_done) r = commit g c ctx_done r
connect_step flight step r = r

-- Nobody has a client that is not made yet.
unfoldable pub act : Action → Runtime → Runtime
act invalidate r = invalidate_client r
act (invalidate_if c) r = if ltb c r.created then invalidate_client_if c r else r
act close_next r = close_first r.closing r
act (ends c) r = if ltb c r.created then record r { ended = mark_ended c r.ended } else r
act (notices_end c) r = watch_client c r

unfoldable pub step : Event → Runtime → Runtime
step (by_connect s) r = connect_step r.flight s r
step (by_other a) r = act a r

unfoldable pub run : List Event → Runtime → Runtime
run [] r = r
run (event ∷ events) r = run events (step event r)
