-- ===== src/SoftEther/Session.antt =====
-- internal/softether/protocol.go, the session after the handshake: Ethernet frames in numbered blocks,
-- and keep-alives, over one TLS stream. The stream is the bytes that were written so far; one that
-- ends, a deadline that passes and a broken connection are the same to a reader.
pub mod Framing
pub mod Blocks
pub mod Carried
pub mod Delivery
mod Tests
use lab_remote_go.Common.{
  ℕ, zero, suc, ◌+◌, ◌*◌, ◌%◌, ◌^◌, Bool, true, false, ◌||◌, List, [], ◌∷◌, ◌++◌, Option, none,
  some, if◌then◌else◌, ltb, ◌==◌, length, take, Bytes, put_u32, get_u32, read_full,
}
use lab_remote_go.Common.Results.{Result, err, ok}

abbrev pub keep_alive_magic : ℕ
keep_alive_magic = 0xffffffff

abbrev pub max_keep_alive_size : ℕ
max_keep_alive_size = 512

abbrev pub max_ethernet_frame : ℕ
max_ethernet_frame = 65536

-- the bounds of the channels `frames` and `outbound`, and of a block
abbrev pub channel_size : ℕ
channel_size = 256

abbrev pub max_block : ℕ
max_block = 4096

pub data StopReason : Type 0 where
  read_failed bad_keep_alive too_many_frames bad_frame_length write_error closed : StopReason

-- `wire` is what `writeLoop` has written, and `writing` that it has not returned.
pub record Session : Type 0 where
  pub outbound : List Bytes
  pub wire : Bytes
  pub writing : Bool
  pub stopped : Option StopReason

abbrev pub new_session : Session
new_session = record { outbound = []; wire = []; writing = true; stopped = none }

-- `session.stop`: only the first reason is kept.
abbrev pub first_reason : Option StopReason → StopReason → Option StopReason
first_reason none reason = some reason
first_reason (some first) reason = some first

unfoldable pub stop : StopReason → Session → Session
stop reason s = record s { stopped = first_reason s.stopped reason }

pub data SendError : Type 0 where
  frame_length_invalid : SendError
  session_closed : StopReason → SendError
  waits : SendError

abbrev pub bad_length : ℕ → Bool
bad_length size = ltb size 14 || ltb max_ethernet_frame size

-- The `select` of `Send`: on a full channel the caller waits, and may try again. When the session is
-- stopped and the channel has room, either case may be taken; `prefers_done` says which.
abbrev pub select_send :
    Bool → Bytes → Option StopReason → Session → Session × Result SendError (Unit {0})
select_send prefers_done frame (some reason) s =
    if prefers_done || ltb channel_size (length s.outbound + 1)
    then (s, err (session_closed reason))
    else (record s { outbound = s.outbound ++ (frame ∷ []) }, ok tt)
select_send prefers_done frame none s =
    if ltb channel_size (length s.outbound + 1)
    then (s, err waits)
    else (record s { outbound = s.outbound ++ (frame ∷ []) }, ok tt)

unfoldable pub send : Bool → Bytes → Session → Session × Result SendError (Unit {0})
send prefers_done frame s =
    if bad_length (length frame)
    then (s, err frame_length_invalid)
    else select_send prefers_done frame s.stopped s

unfoldable pub write_frame_batch : Bytes → Bytes
write_frame_batch frame = put_u32 1 ++ (put_u32 (length frame) ++ frame)

-- `randomSize(max)` of the two random bytes whose value is `v`
unfoldable pub random_size : ℕ → ℕ → ℕ
random_size v max = if max == 0 then 0 else v % max

-- `rand.Read` of a slice of `n` bytes
abbrev pub rand_read : ℕ → (ℕ → ℕ) → Bytes
rand_read zero noise = []
rand_read (suc n) noise = noise n ∷ rand_read n noise

unfoldable pub keep_alive_size : ℕ → ℕ
keep_alive_size v = let size = random_size v max_keep_alive_size in if size == 0 then 1 else size

unfoldable pub write_keep_alive : ℕ → (ℕ → ℕ) → Bytes
write_keep_alive v noise =
    put_u32 keep_alive_magic ++ (put_u32 (keep_alive_size v) ++ rand_read (keep_alive_size v) noise)

-- How the writes of one block go: all of it is written; or one of them fails, and `n` bytes of the
-- block are on the stream by then. A failed `rand.Read` or write deadline is a failure after no byte.
-- Another goroutine may have stopped the session in between, which is then what failed it.
pub data Wrote : Type 0 where
  whole : Wrote
  cut : ℕ → Option StopReason → Wrote

abbrev pub meanwhile : Option StopReason → Session → Session
meanwhile none s = s
meanwhile (some reason) s = stop reason s

abbrev pub write_block : Bytes → Wrote → Session → Session
write_block block whole s = record s { wire = s.wire ++ block }
write_block block (cut n other) s =
    stop write_error (meanwhile other (record s { wire = s.wire ++ take n block; writing = false }))

-- The cases of the `select` of `writeLoop`: it takes a frame from the channel, the ticker fires, or
-- the session is stopped. On a stopped session each of them may be taken as long as it has not returned.
abbrev pub write_queued : Wrote → List Bytes → Session → Session
write_queued w [] s = s
write_queued w (frame ∷ queue) s =
    write_block (write_frame_batch frame) w (record s { outbound = queue })

unfoldable pub write_next : Wrote → Session → Session
write_next w s = if s.writing then write_queued w s.outbound s else s

unfoldable pub tick : ℕ → (ℕ → ℕ) → Wrote → Session → Session
tick v noise w s = if s.writing then write_block (write_keep_alive v noise) w s else s

abbrev pub running : Option StopReason → Bool
running none = true
running (some reason) = false

unfoldable pub leave : Session → Session
leave s = if running s.stopped then s else record s { writing = false }

-- What `readLoop` has sent to `frames`, and how it goes on: with the rest of the stream, or it stops.
abbrev pub Turn : Type 0
Turn = List Bytes × Result StopReason Bytes

abbrev pub stops : StopReason → Turn
stops reason = ([], err reason)

abbrev pub with_frame : Bytes → Turn → Turn
with_frame frame (frames, next) = (frame ∷ frames, next)

-- `binary.Read` of a `uint32`, and `io.ReadFull` or `io.CopyN` of `n` bytes, before `f`
abbrev pub after_u32 : Option (ℕ × Bytes) → (ℕ → Bytes → Turn) → Turn
after_u32 none f = stops read_failed
after_u32 (some (n, src)) f = f n src

abbrev pub after_full : Option (Bytes × Bytes) → (Bytes → Bytes → Turn) → Turn
after_full none f = stops read_failed
after_full (some (content, src)) f = f content src

unfoldable pub read_frames : ℕ → Bytes → Turn
read_frames zero src = ([], ok src)
read_frames (suc count) src = after_u32 (get_u32 src) (λ size src₁.
    if bad_length size
    then stops bad_frame_length
    else after_full (read_full size src₁) (λ frame src₂. with_frame frame (read_frames count src₂)))

unfoldable pub read_keep_alive : Bytes → Turn
read_keep_alive src = after_u32 (get_u32 src) (λ size src₁.
    if ltb max_keep_alive_size size
    then stops bad_keep_alive
    else after_full (read_full size src₁) (λ noise src₂. ([], ok src₂)))

unfoldable pub read_block : Bytes → Turn
read_block src = after_u32 (get_u32 src) (λ count src₁.
    if count == keep_alive_magic
    then read_keep_alive src₁
    else if ltb max_block count
    then stops too_many_frames
    else read_frames count src₁)

abbrev pub go_on : Turn → (Bytes → List Bytes × Option StopReason) → List Bytes × Option StopReason
go_on (frames, err reason) f = (frames, some reason)
go_on (frames, ok src) f = let (more, reason) = f src in (frames ++ more, reason)

-- `readLoop` on fuel: the frames that it sends on, and why it stopped. `none` is out of fuel.
unfoldable pub read_loop : ℕ → Bytes → List Bytes × Option StopReason
read_loop zero src = ([], none)
read_loop (suc fuel) src = go_on (read_block src) (λ rest. read_loop fuel rest)
