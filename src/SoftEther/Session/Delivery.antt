-- ===== src/SoftEther/Session/Delivery.antt =====
-- What one end of a session sends against what the other end reads.
use lab_remote_go.Common.{
  ℕ, ◌+◌, ◌≤◌, ◌≡◌, refl, true, false, Bool, ◌||◌, List, [], ◌∷◌, ◌++◌, some, arith, length, Bytes,
  append_assoc, append-nil, length-append,
}
use lab_remote_go.SoftEther.Session.{
  Session, StopReason, Wrote, new_session, read_failed, read_loop, send, stop, write_next, tick,
  leave,
}
use lab_remote_go.SoftEther.Session.Blocks.{
  encode, frames_of, length-encode, read_loop-encode, read_block-nil,
}
use lab_remote_go.SoftEther.Session.Carried.{
  accepted, fails, Carries, send-Carries, write_next-Carries, tick-Carries, leave-Carries,
  stop-Carries,
}

pub data Action : Type 0 where
  push : Bool → Bytes → Action
  write_turn : Wrote → Action
  ticker : ℕ → (ℕ → ℕ) → Wrote → Action
  done_turn : Action
  stops_for : StopReason → Action

-- whether the write of a frame failed, among these actions
abbrev pub frame_cut : Action → Bool
frame_cut (push prefers_done frame) = false
frame_cut (write_turn w) = fails w
frame_cut (ticker v noise w) = false
frame_cut done_turn = false
frame_cut (stops_for reason) = false

abbrev pub any_frame_cut : List Action → Bool
any_frame_cut [] = false
any_frame_cut (a ∷ actions) = frame_cut a || any_frame_cut actions

unfoldable pub act : Action → Session → List Bytes × Session
act (push prefers_done frame) s = let out = send prefers_done frame s in (accepted frame out, out.0)
act (write_turn w) s = ([], write_next w s)
act (ticker v noise w) s = ([], tick v noise w s)
act done_turn s = ([], leave s)
act (stops_for reason) s = ([], stop reason s)

unfoldable pub transmit : List Action → Session → List Bytes × Session
transmit [] s = ([], s)
transmit (a ∷ actions) s =
    let (frames, s') = act a s in let (more, s'') = transmit actions s' in (frames ++ more, s'')

-- `any`: the write of a frame fails at some time.
module _ (any : Bool) where
  act-Carries :
      (a : Action) (sent : List Bytes) (s : Session)
      → (frame_cut a ≡ true → any ≡ true)
      → Carries any sent s
      → Carries any (sent ++ (act a s).0) (act a s).1
  unfolding act
  act-Carries (push prefers_done frame) sent s cuts h = send-Carries any prefers_done frame sent s h
  act-Carries (write_turn w) sent s cuts h = rw append-nil (write_next-Carries any w sent s cuts h)
  act-Carries (ticker v noise w) sent s cuts h = rw append-nil (tick-Carries any v noise w sent s h)
  act-Carries done_turn sent s cuts h = rw append-nil (leave-Carries any sent s h)
  act-Carries (stops_for reason) sent s cuts h = rw append-nil (stop-Carries any reason sent s h)

  transmit-Carries :
      (actions : List Action) (sent : List Bytes) (s : Session)
      → (any_frame_cut actions ≡ true → any ≡ true)
      → Carries any sent s
      → Carries any (sent ++ (transmit actions s).0) (transmit actions s).1
  unfolding transmit
  transmit-Carries [] sent s cuts h = rw append-nil h
  transmit-Carries (a ∷ actions) sent s cuts h =
      rw (← append_assoc sent ((act a s).0) ((transmit actions (act a s).1).0)) (
        transmit-Carries actions (sent ++ (act a s).0) (act a s).1 (λ e. cuts (ground arith))
          (act-Carries a sent s (λ e. cuts (ground arith)) h))

-- Whatever one end sends, writes and keeps alive, whichever write fails after however many bytes, and
-- also around a stop: the other end's `readLoop`, on all that was written, hands on the frames that
-- `Send` accepted, unchanged and in their order, up to at most one, whose write failed, and those that
-- still wait in the channel; and it meets nothing but the end of the stream. As long as `writeLoop` has
-- not returned, or if no write of a frame failed, no frame is missing but those that wait.
pub read_loop-transmit :
    (actions : List Action)
    → let (sent, s) = transmit actions new_session in
      let (received, reason) = read_loop (length s.wire + 1) s.wire in
      (lost : List Bytes) × (received ++ (lost ++ s.outbound) ≡ sent)
      × (length lost ≤ 1)
      × (s.writing ≡ true → lost ≡ [])
      × (any_frame_cut actions ≡ false → lost ≡ [])
      × (reason ≡ some read_failed)
read_loop-transmit actions =
    let (sent, s) = transmit actions new_session in
    let any : Bool = any_frame_cut actions in
    let h : Carries any sent s =
      transmit-Carries any actions [] new_session (λ cuts. cuts)
        (record {
          blocks = [];
          tail = [];
          lost = [];
          encoded = refl;
          complete = refl;
          queued = tt;
          ends = read_block-nil;
          single = omega arith;
          intact = λ e. (refl, refl);
          blame = λ e. refl;
        }) in
    let e : read_loop (length s.wire + 1) s.wire ≡ (frames_of h.blocks, some read_failed) =
      rw h.encoded (
        read_loop-encode h.tail h.blocks (length (encode h.blocks ++ h.tail) + 1) h.ends
          (omega (arith, length-encode h.blocks, length-append (encode h.blocks) h.tail))) in
    (h.lost, rw e h.complete, h.single, (λ on. (h.intact on).1), h.blame, rw e refl)
