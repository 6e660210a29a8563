-- ===== src/Ssh/RingBuffer/Growth.antt =====
-- The terminal's side of the buffer only extends the stream, by what it writes while it is open.
use lab_remote_go.Common.{
  ℕ, ◌+◌, ◌^◌, ◌≤◌, ◌<◌, ◌≡◌, refl, Bool, true, false, List, [], ◌∷◌, ◌++◌, arith, length,
  length-append, append_assoc, append-nil, ◌∙◌, ap, sym, if◌then◌else◌,
}
use mathlib.Core.Path.{subst}
use lab_remote_go.Ssh.RingBuffer.{RingBuffer, append_open, append, close}
use lab_remote_go.Ssh.RingBuffer.Stream.{Holds, append-Holds, close-Holds}
use lab_remote_go.Ssh.RingBuffer.Reader.{
  Op, append_op, close_op, apply, offered, Wake, notified, cancelled, expired,
}

-- What the writers add to the stream: the bytes they append, up to the first that closes.
abbrev pub written : Bool → List Op → List ℕ
written closed [] = []
written closed (append_op value ∷ ops) = (if closed then [] else value) ++ written closed ops
written closed (close_op err_text ∷ ops) = []

abbrev pub closes : Bool → List Op → Bool
closes closed [] = closed
closes closed (append_op value ∷ ops) = closes closed ops
closes closed (close_op err_text ∷ ops) = true

-- What the terminal's side has done by the wake-ups.
abbrev pub done_by : List Wake → List Op
done_by [] = []
done_by (notified ops ∷ wakes) = ops ++ done_by wakes
done_by (cancelled err_text ∷ wakes) = done_by wakes
done_by (expired ∷ wakes) = done_by wakes

closes-closed : (ops : List Op) → closes true ops ≡ true
closes-closed [] = refl
closes-closed (append_op value ∷ ops) = closes-closed ops
closes-closed (close_op err_text ∷ ops) = refl

written-closed : (ops : List Op) → written true ops ≡ []
written-closed [] = refl
written-closed (append_op value ∷ ops) = written-closed ops
written-closed (close_op err_text ∷ ops) = refl

pub written-append :
    (closed : Bool) (xs ys : List Op)
    → written closed (xs ++ ys) ≡ written closed xs ++ written (closes closed xs) ys
written-append closed [] ys = refl
written-append closed (append_op value ∷ xs) ys =
    rw (written-append closed xs ys, append_assoc) refl
written-append closed (close_op err_text ∷ xs) ys = sym (written-closed ys)

pub length-written : (closed : Bool) (ops : List Op) → length (written closed ops) ≤ offered ops
length-written closed [] = omega arith
length-written true (append_op value ∷ ops) = omega (arith, length-written true ops)
length-written false (append_op value ∷ ops) =
    omega (arith, length-append value (written false ops), length-written false ops)
length-written closed (close_op err_text ∷ ops) = omega arith

closed-append : (b : RingBuffer) (value : List ℕ) → (append b value).closed ≡ b.closed
unfolding append append_open
closed-append b value = ground arith

closed-close : (b : RingBuffer) (err_text : List ℕ) → (close b err_text).closed ≡ true
unfolding close
closed-close b err_text = ground arith

capacity-append : (b : RingBuffer) (value : List ℕ) → (append b value).capacity ≡ b.capacity
unfolding append append_open
capacity-append b value = ground arith

capacity-close : (b : RingBuffer) (err_text : List ℕ) → (close b err_text).capacity ≡ b.capacity
unfolding close
capacity-close b err_text = ground arith

pub capacity-apply : (ops : List Op) (b : RingBuffer) → (apply b ops).capacity ≡ b.capacity
unfolding apply
capacity-apply [] b = refl
capacity-apply (append_op value ∷ ops) b =
    capacity-apply ops (append b value) ∙ capacity-append b value
capacity-apply (close_op err_text ∷ ops) b =
    capacity-apply ops (close b err_text) ∙ capacity-close b err_text

pub closed-apply : (ops : List Op) (b : RingBuffer) → (apply b ops).closed ≡ closes b.closed ops
unfolding apply
closed-apply [] b = refl
closed-apply (append_op value ∷ ops) b =
    closed-apply ops (append b value) ∙ ap (λ c. closes c ops) (closed-append b value)
closed-apply (close_op err_text ∷ ops) b =
    closed-apply ops (close b err_text)
    ∙ (ap (λ c. closes c ops) (closed-close b err_text) ∙ closes-closed ops)

pub apply-append : (xs ys : List Op) (b : RingBuffer) → apply b (xs ++ ys) ≡ apply (apply b xs) ys
unfolding apply
apply-append [] ys b = refl
apply-append (append_op value ∷ xs) ys b = apply-append xs ys (append b value)
apply-append (close_op err_text ∷ xs) ys b = apply-append xs ys (close b err_text)

length-given :
    (closed : Bool) (value : List ℕ) → length (if closed then [] else value) ≤ length value
length-given closed value = ground arith

-- After the writers the buffer holds the stream with what they wrote.
pub apply-Holds :
    (ops : List Op) {b : RingBuffer} (h : List ℕ)
    → Holds b h
    → length h + offered ops < 2 ^ 64
    → Holds (apply b ops) (h ++ written b.closed ops)
unfolding apply
apply-Holds [] h v small = rw append-nil v
apply-Holds (append_op value ∷ ops) {b} h v small =
    let given : List ℕ = if b.closed then [] else value in
    let rest =
      apply-Holds ops {b = append b value} (h ++ given) (append-Holds h value v (omega arith))
        (omega (arith, length-append h given, length-given b.closed value)) in
    subst (Holds (apply (append b value) ops))
      (ap (λ c. (h ++ given) ++ written c ops) (closed-append b value)
        ∙ append_assoc h given (written b.closed ops))
      rest
apply-Holds (close_op err_text ∷ ops) {b} h v small =
    subst (Holds (apply (close b err_text) ops))
      (ap (λ c. h ++ written c ops) (closed-close b err_text)
        ∙ ap (λ t. h ++ t) (written-closed ops))
      (apply-Holds ops h (close-Holds h err_text v) small)
