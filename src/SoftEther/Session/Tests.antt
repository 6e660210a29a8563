-- ===== src/SoftEther/Session/Tests.antt =====
-- Runs and witnesses for the session.
use lab_remote_go.Common.{
  ◌≤◌, ◌≡◌, ◌≢◌, refl, true, false, List, [], ◌∷◌, ◌++◌, ◌+◌, some, none, replicate, length, Bytes,
  put_u32, get_u32, read_full, arith,
}
use lab_remote_go.SoftEther.Session.{
  whole, cut, new_session, read_failed, closed, read_loop, read_block, read_frames, read_keep_alive,
  send, stop, write_next, tick, write_frame_batch, write_keep_alive, keep_alive_size, random_size,
}
use lab_remote_go.SoftEther.Session.Framing.{AllSized, read_loop-AllSized}
use lab_remote_go.SoftEther.Session.Delivery.{
  Action, push, write_turn, ticker, any_frame_cut, act, transmit, read_loop-transmit,
}

abbrev frame : Bytes
frame = replicate 14 7

abbrev second : Bytes
second = replicate 15 8

abbrev third : Bytes
third = replicate 16 9

-- The write of the third frame fails after three of its bytes.
abbrev actions : List Action
actions =
    push false frame
    ∷ push false (1 ∷ [])
    ∷ ticker 3 (λ n. n) whole
    ∷ write_turn whole
    ∷ push false second
    ∷ push false third
    ∷ push false frame
    ∷ write_turn whole
    ∷ write_turn (cut 11 (some closed))
    ∷ write_turn whole
    ∷ []

received_frames :
    let (sent, s) = transmit actions new_session in
    ((read_loop 9 s.wire).0 ≡ frame ∷ second ∷ [])
    × (s.outbound ≡ frame ∷ [])
    × (s.stopped ≡ some closed)
unfolding transmit act send stop write_next tick write_frame_batch write_keep_alive keep_alive_size
    random_size read_loop read_block read_frames read_keep_alive put_u32 get_u32 read_full
received_frames = (refl, refl, refl)

read_loop-transmit_example :
    let (sent, s) = transmit actions new_session in
    let (received, reason) = read_loop (length s.wire + 1) s.wire in
    (lost : List Bytes) × (received ++ (lost ++ s.outbound) ≡ sent)
    × (length lost ≤ 1)
    × (s.writing ≡ true → lost ≡ [])
    × (any_frame_cut actions ≡ false → lost ≡ [])
    × (reason ≡ some read_failed)
read_loop-transmit_example = read_loop-transmit actions

-- A block that announces a frame of 3 bytes is refused.
read_loop-AllSized_example :
    let r = read_loop 9 (put_u32 1 ++ put_u32 3) in AllSized r.0 × (r.1 ≢ none)
unfolding put_u32
read_loop-AllSized_example = read_loop-AllSized 9 (put_u32 1 ++ put_u32 3) (omega arith)
