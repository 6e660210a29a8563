-- ===== src/SoftEther/Session/Carried.antt =====
-- What a session has written and what it still holds, against what was sent.
use lab_remote_go.Common.{
  ℕ, ◌≤◌, ◌<◌, ◌≡◌, refl, ap, sym, ◌∙◌, true, false, Bool, inl, inr, List, [], ◌∷◌, ◌++◌, Option,
  none, some, arith, length, take, Bytes, put_u32, if◌then◌else◌, append_assoc, append-nil,
  Bool-cases, take-of_le,
}
use native.Mathlib.Decide.{dec_lt}
use mathlib.Core.Path.{subst}
use lab_remote_go.Common.Results.{Result, err, ok}
use lab_remote_go.SoftEther.Session.{
  Session, StopReason, SendError, Wrote, whole, cut, read_failed, write_error, waits,
  session_closed, bad_length, read_block, write_frame_batch, write_keep_alive, write_block,
  meanwhile, send, stop, write_next, tick, leave, select_send, write_queued, running,
  keep_alive_size,
}
use lab_remote_go.SoftEther.Session.Blocks.{
  Block, frame_block, alive_block, encode, frames_of, encode-append, frames_of-append,
  read_block-nil, read_block-cut_frame, read_block-cut_alive, length-rand_read,
}

-- the frames whose `Send` returned no error
abbrev pub accepted : {A : Type 0} → Bytes → Session × Result SendError A → List Bytes
accepted frame (s, ok a) = frame ∷ []
accepted frame (s, err e) = []

abbrev pub fails : Wrote → Bool
fails whole = false
fails (cut n other) = true

abbrev pub AllGood : List Bytes → Type 0
AllGood [] = Unit {0}
AllGood (frame ∷ frames) = (bad_length (length frame) ≡ false) × AllGood frames

AllGood-append : (xs ys : List Bytes) → AllGood xs → AllGood ys → AllGood (xs ++ ys)
AllGood-append [] ys p q = q
AllGood-append (x ∷ xs) ys p q = (p.0, AllGood-append xs ys p.1 q)

bool_clash : {b : Bool} → b ≡ true → b ≡ false → ⊥
bool_clash {b} e e' = cc

-- `any`: the write of a frame fails at some time.
module _ (any : Bool) where
  -- The stream is made of blocks and at most a cut one at its end; the frames of the blocks, the cut
  -- one and the queued ones are those that were sent.
  pub record Carries (sent : List Bytes) (s : Session) : Type 0 where
    pub blocks : List Block
    pub tail : Bytes
    pub lost : List Bytes
    pub encoded : s.wire ≡ encode blocks ++ tail
    pub complete : frames_of blocks ++ (lost ++ s.outbound) ≡ sent
    pub queued : AllGood s.outbound
    pub ends : read_block tail ≡ ([], err read_failed)
    pub single : length lost ≤ 1
    pub intact : s.writing ≡ true → (tail ≡ []) × (lost ≡ [])
    pub blame : any ≡ false → lost ≡ []

  enqueue-Carries :
      (frame : Bytes) (sent : List Bytes) (s : Session)
      → bad_length (length frame) ≡ false
      → Carries sent s
      → Carries (sent ++ (frame ∷ [])) (record s { outbound = s.outbound ++ (frame ∷ []) })
  enqueue-Carries frame sent s good h = record {
    blocks = h.blocks;
    tail = h.tail;
    lost = h.lost;
    encoded = h.encoded;
    complete =
        ap (λ t. frames_of h.blocks ++ t) (sym (append_assoc h.lost s.outbound (frame ∷ [])))
        ∙ (sym (append_assoc (frames_of h.blocks) (h.lost ++ s.outbound) (frame ∷ []))
            ∙ ap (λ t. t ++ (frame ∷ [])) h.complete);
    queued = AllGood-append s.outbound (frame ∷ []) h.queued (good, tt);
    ends = h.ends;
    single = h.single;
    intact = h.intact;
    blame = h.blame;
  }

  refuse-Carries : (sent : List Bytes) (s : Session) → Carries sent s → Carries (sent ++ []) s
  refuse-Carries sent s h = rw append-nil h

  if-Carries :
      (full : Bool) (e : SendError) (frame : Bytes) (sent : List Bytes) (s : Session)
      → bad_length (length frame) ≡ false
      → Carries sent s
      → let out : Session × Result SendError (Unit {0}) =
          if full
          then (s, err e)
          else (record s { outbound = s.outbound ++ (frame ∷ []) }, ok tt) in
        Carries (sent ++ accepted frame out) out.0
  if-Carries true e frame sent s good h = refuse-Carries sent s h
  if-Carries false e frame sent s good h = enqueue-Carries frame sent s good h

  select_send-Carries :
      (prefers_done : Bool) (frame : Bytes) (stopped : Option StopReason) (sent : List Bytes)
      (s : Session)
      → bad_length (length frame) ≡ false
      → Carries sent s
      → let out = select_send prefers_done frame stopped s in
        Carries (sent ++ accepted frame out) out.0
  select_send-Carries prefers_done frame none sent s good h = if-Carries _ waits frame sent s good h
  select_send-Carries prefers_done frame (some reason) sent s good h =
      if-Carries _ (session_closed reason) frame sent s good h

  pub send-Carries :
      (prefers_done : Bool) (frame : Bytes) (sent : List Bytes) (s : Session)
      → Carries sent s
      → let out = send prefers_done frame s in Carries (sent ++ accepted frame out) out.0
  unfolding send
  send-Carries prefers_done frame sent s h = elim (Bool-cases (bad_length (length frame))) [
    | inl bad ↦ rw bad (refuse-Carries sent s h)
    | inr good ↦ rw good (select_send-Carries prefers_done frame s.stopped sent s good h)
  ]

  pub stop-Carries :
      (reason : StopReason) (sent : List Bytes) (s : Session)
      → Carries sent s
      → Carries sent (stop reason s)
  unfolding stop
  stop-Carries reason sent s h = record {
    blocks = h.blocks;
    tail = h.tail;
    lost = h.lost;
    encoded = h.encoded;
    complete = h.complete;
    queued = h.queued;
    ends = h.ends;
    single = h.single;
    intact = h.intact;
    blame = h.blame;
  }

  meanwhile-Carries :
      (other : Option StopReason) (sent : List Bytes) (s : Session)
      → Carries sent s
      → Carries sent (meanwhile other s)
  meanwhile-Carries none sent s h = h
  meanwhile-Carries (some reason) sent s h = stop-Carries reason sent s h

  abbrev block_bytes : Block → Bytes
  block_bytes (frame_block frame good) = write_frame_batch frame
  block_bytes (alive_block v noise) = write_keep_alive v noise

  encode-single : (x : Block) → encode (x ∷ []) ≡ block_bytes x
  encode-single (frame_block frame good) = append-nil _
  encode-single (alive_block v noise) = append-nil _

  length-frames_of : (x : Block) → length (frames_of (x ∷ [])) ≤ 1
  length-frames_of (frame_block frame good) = omega arith
  length-frames_of (alive_block v noise) = omega arith

  read_block-cut :
      (x : Block) (n : ℕ)
      → n < length (block_bytes x)
      → read_block (take n (block_bytes x)) ≡ ([], err read_failed)
  unfolding write_frame_batch write_keep_alive put_u32
  read_block-cut (frame_block frame good) n h = read_block-cut_frame frame n good (omega arith)
  read_block-cut (alive_block v noise) n h =
      read_block-cut_alive v noise n (omega (arith, length-rand_read (keep_alive_size v) noise))

  -- A session that is still writing, with a block about to be written.
  module _ (x : Block) (sent : List Bytes) (blocks : List Block) (s : Session)
      (encoded : s.wire ≡ encode blocks)
      (complete : frames_of blocks ++ (frames_of (x ∷ []) ++ s.outbound) ≡ sent)
      (queued : AllGood s.outbound) where
    whole-Carries :
        (writing : Bool)
        → Carries sent (record s { wire = s.wire ++ block_bytes x; writing = writing })
    whole-Carries writing = record {
      blocks = blocks ++ (x ∷ []);
      tail = [];
      lost = [];
      encoded = rw (encode-append blocks (x ∷ []), encode-single x, encoded, append-nil) refl;
      complete = rw (frames_of-append blocks (x ∷ []), append_assoc) complete;
      queued = queued;
      ends = read_block-nil;
      single = omega arith;
      intact = λ e. (refl, refl);
      blame = λ e. refl;
    }

    cut-Carries :
        (n : ℕ)
        → (any ≡ false → frames_of (x ∷ []) ≡ [])
        → Carries sent (record s { wire = s.wire ++ take n (block_bytes x); writing = false })
    cut-Carries n known = elim (dec_lt n (length (block_bytes x))) [
      | yes short ↦ record {
        blocks = blocks;
        tail = take n (block_bytes x);
        lost = frames_of (x ∷ []);
        encoded = rw encoded refl;
        complete = complete;
        queued = queued;
        ends = read_block-cut x n short;
        single = length-frames_of x;
        intact = λ e. absurd (cc);
        blame = known;
      }
      | no long ↦
          subst (λ t. Carries sent (record s { wire = s.wire ++ t; writing = false }))
            (sym (take-of_le n (block_bytes x) (omega arith))) (whole-Carries false)
    ]

    write_block-Carries :
        (w : Wrote)
        → (fails w ≡ true → any ≡ false → frames_of (x ∷ []) ≡ [])
        → s.writing ≡ true
        → Carries sent (write_block (block_bytes x) w s)
    write_block-Carries whole known on =
        subst (λ k. Carries sent (record s { wire = s.wire ++ block_bytes x; writing = k }))
          (sym on) (whole-Carries true)
    write_block-Carries (cut n other) known on =
        stop-Carries write_error sent _
          (meanwhile-Carries other sent _ (cut-Carries n (known refl)))

  write_queued-Carries :
      (w : Wrote) (queue : List Bytes) (sent : List Bytes) (s : Session)
      → (fails w ≡ true → any ≡ true)
      → s.outbound ≡ queue
      → s.writing ≡ true
      → Carries sent s
      → Carries sent (write_queued w queue s)
  write_queued-Carries w [] sent s cuts e on h = h
  write_queued-Carries w (frame ∷ queue) sent s cuts e on h =
      let good : AllGood (frame ∷ queue) = subst AllGood e h.queued in
      let (no_tail, no_lost) = h.intact on in
      write_block-Carries (frame_block frame good.0) sent h.blocks (record s { outbound = queue })
        (h.encoded ∙ (ap (λ t. encode h.blocks ++ t) no_tail ∙ append-nil _))
        (subst (λ q. frames_of h.blocks ++ q ≡ sent) (ap (λ l. l ++ s.outbound) no_lost ∙ e)
          h.complete)
        good.1 w (λ f e'. absurd (bool_clash (cuts f) e')) on

  while-Carries :
      (on : Bool) (sent : List Bytes) (s t : Session)
      → Carries sent s
      → (on ≡ true → Carries sent t)
      → Carries sent (if on then t else s)
  while-Carries true sent s t h h' = h' refl
  while-Carries false sent s t h h' = h

  pub write_next-Carries :
      (w : Wrote) (sent : List Bytes) (s : Session)
      → (fails w ≡ true → any ≡ true)
      → Carries sent s
      → Carries sent (write_next w s)
  unfolding write_next
  write_next-Carries w sent s cuts h =
      while-Carries s.writing sent s (write_queued w s.outbound s) h
        (λ on. write_queued-Carries w s.outbound sent s cuts refl on h)

  pub tick-Carries :
      (v : ℕ) (noise : ℕ → ℕ) (w : Wrote) (sent : List Bytes) (s : Session)
      → Carries sent s
      → Carries sent (tick v noise w s)
  unfolding tick
  tick-Carries v noise w sent s h =
      while-Carries s.writing sent s (write_block (write_keep_alive v noise) w s) h (λ on.
        let (no_tail, no_lost) = h.intact on in
        write_block-Carries (alive_block v noise) sent h.blocks s
          (h.encoded ∙ (ap (λ t. encode h.blocks ++ t) no_tail ∙ append-nil _))
          (subst (λ l. frames_of h.blocks ++ (l ++ s.outbound) ≡ sent) no_lost h.complete) h.queued
          w (λ f e. refl) on)

  pub leave-Carries : (sent : List Bytes) (s : Session) → Carries sent s → Carries sent (leave s)
  unfolding leave
  leave-Carries sent s h = elim (Bool-cases (running s.stopped)) [
    | inl on ↦ rw on h
    | inr off ↦ rw off (record {
      blocks = h.blocks;
      tail = h.tail;
      lost = h.lost;
      encoded = h.encoded;
      complete = h.complete;
      queued = h.queued;
      ends = h.ends;
      single = h.single;
      intact = λ e. absurd (cc);
      blame = h.blame;
    })
  ]
