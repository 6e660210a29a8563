-- ===== src/Vpn/Isolated/Races.antt =====
-- `Disconnect` against a `Connect` in flight.
use Prim.Native.String.{String}
use lab_remote_go.Common.{ℕ, ◌≡◌, true, false, [], ◌∷◌, none, arith}
use lab_remote_go.Common.Maps.{str_eq_refl}
use lab_remote_go.Vpn.States.{connected, update_status, get_status}
use lab_remote_go.Vpn.Isolated.{
  resting, holding, Tunnel, connect_commit, connect_publish, disconnect_take, disconnect_finish,
}
use lab_remote_go.Vpn.Isolated.Events.{
  commit, publish_connected, take_link, finish, finish_first, react, step, run,
}

-- The status is published after the lock is left: a `Disconnect` that runs between the two leaves
-- the profile with the state "connected", though its link is closed and none is installed.
pub stale_connected :
    (id : String) (t : Tunnel) (g l n m later : ℕ) (address : String)
    → t.flight ≡ holding g l
    → t.generation ≡ g
    → t.closing ≡ []
    → let t' =
        run id (commit false ∷ take_link ∷ finish true n ∷ publish_connected address m ∷ []) t in
      (t'.link ≡ none)
      × (t'.ended l ≡ true)
      × (t'.flight ≡ resting)
      × ((get_status t'.states later id).state ≡ connected)
unfolding run step react disconnect_take disconnect_finish finish_first connect_commit
    connect_publish update_status get_status
stale_connected id t g l n m later address f e c = ground (arith, str_eq_refl id)
