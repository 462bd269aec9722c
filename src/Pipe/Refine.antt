-- ===== src/Pipe/Refine.antt =====
-- A pipe behaves as the bounded queue of the bytes that it holds, over every schedule of runs.
use mathlib.Core.List.{append-nil, append_assoc}
use schoolstuff.Base.{
  ℕ, zero, suc, ◌-◌, ◌<◌, ◌≡◌, refl, inl, inr, Bool, not, ◌||◌, if◌then◌else◌, List, [], ◌∷◌, ◌++◌,
  arith, Bool-cases, ◌==◌, ◌&&◌, length, length-append, take, drop, sym, ◌∙◌, ap,
}
use schoolstuff.Pipe.Fifo
use schoolstuff.Pipe.Fifo.{
  Fifo, Call, write, read, close_read, close_write, room, offer, poll, Reply,
}
use schoolstuff.Pipe.{
  Pipe, pipe_size, is_full, is_empty, put, get, pipewrite, copy_out, piperead, step, run,
}
use schoolstuff.Pipe.Ring.{
  count, IsValid, contents, view, length-contents, is_full_iff, is_empty_iff, put-IsValid,
  contents-put, get-IsValid, contents-get,
}

take-nil : (n : ℕ) → take {A = ℕ} n [] ≡ []
take-nil zero = refl
take-nil (suc n) = refl

drop-nil : (n : ℕ) → drop {A = ℕ} n [] ≡ []
drop-nil zero = refl
drop-nil (suc n) = refl

take-cons : (n : ℕ) (x : ℕ) (xs : List ℕ) → 0 < n → take n (x ∷ xs) ≡ x ∷ take (n - 1) xs
take-cons zero x xs h = absurd (omega arith)
take-cons (suc n) x xs h = ap (λ k. x ∷ take k xs) (omega arith)

drop-cons : (n : ℕ) (x : ℕ) (xs : List ℕ) → 0 < n → drop n (x ∷ xs) ≡ drop (n - 1) xs
drop-cons zero x xs h = absurd (omega arith)
drop-cons (suc n) x xs h = ap (λ k. drop k xs) (omega arith)

-- The queue after one more byte.
abbrev push : Fifo → ℕ → Fifo
push q x = record q { queue = q.queue ++ (x ∷ []) }

offer-nil :
    (cap : ℕ) (killed : Bool) (n : ℕ) (q : Fifo)
    → offer cap killed n q [] ≡ ((Fifo.returned n [], Fifo.readers ∷ []), q)
unfolding offer
offer-nil cap killed n q = ground (arith, take-nil (room cap q), append-nil q.queue)

offer-cons :
    (cap : ℕ) (killed : Bool) (n : ℕ) (q : Fifo) (x : ℕ) (xs : List ℕ)
    → 0 < room cap q
    → offer cap killed n q (x ∷ xs) ≡ offer cap killed n (push q x) xs
unfolding offer
offer-cons cap killed n q x xs h = ground (
  arith,
  length-append q.queue (x ∷ []),
  take-cons (room cap q) x xs,
  drop-cons (room cap q) x xs,
  append_assoc q.queue (x ∷ []) (take (room cap q - 1) xs),
)

offer-full :
    (cap : ℕ) (killed : Bool) (n : ℕ) (q : Fifo) (x : ℕ) (xs : List ℕ)
    → room cap q ≡ 0
    → offer cap killed n q (x ∷ xs) ≡ (
      (if not q.can_read || killed
          then (Fifo.failed, [])
          else (Fifo.asleep Fifo.writers (x ∷ xs), Fifo.readers ∷ [])),
      q,
    )
unfolding offer
offer-full cap killed n q x xs h = rw h (ground (arith, append-nil q.queue))

view-put : {p : Pipe} → IsValid p → (x : ℕ) → count p < pipe_size → view (put p x) ≡ push (view p) x
view-put {p} v x h = rw (contents-put v x h) (unfold put in refl)

pub pipewrite-offer :
    (killed : Bool) (n : ℕ) (p : Pipe) (xs : List ℕ)
    → IsValid p
    → IsValid (pipewrite killed n p xs).1
      × (let (r, p') = pipewrite killed n p xs in
          (r, view p') ≡ offer pipe_size killed n (view p) xs)
unfolding pipewrite
pipewrite-offer killed n p [] v = (v, sym (offer-nil pipe_size killed n (view p)))
pipewrite-offer killed n p (x ∷ xs) v = elim (Bool-cases (is_full p)) [
  | inl full ↦
      let e : count p ≡ pipe_size = ground (arith, is_full_iff p v) in
      rw (full, offer-full pipe_size killed n (view p) x xs (omega (arith, length-contents p)))
        (v, refl)
  | inr space ↦
      let h : count p < pipe_size = ground (arith, is_full_iff p v) in
      let ih = pipewrite-offer killed n (put p x) xs (put-IsValid v x h) in
      rw
        (
          space,
          offer-cons pipe_size killed n (view p) x xs (omega (arith, length-contents p)),
          ← view-put v x h,
        )
        ih
]

copy_out-take :
    (n : ℕ) (p : Pipe)
    → IsValid p
    → IsValid (copy_out n p).1
      × ((copy_out n p).0 ≡ take n (contents p))
      × (contents (copy_out n p).1 ≡ drop n (contents p))
      × ((copy_out n p).1.readopen ≡ p.readopen)
      × ((copy_out n p).1.writeopen ≡ p.writeopen)
unfolding copy_out
copy_out-take zero p v = (v, refl, refl, refl, refl)
copy_out-take (suc n) p v = elim (Bool-cases (is_empty p)) [
  | inl none_left ↦
      let e : count p ≡ 0 = ground (arith, is_empty_iff p v) in
      rw (none_left, e) (v, refl, refl, refl, refl)
  | inr some_left ↦
      let h : 0 < count p = ground (arith, is_empty_iff p v) in
      let ih = copy_out-take n (get p).1 (get-IsValid v h) in
      rw (some_left, contents-get v h)
        (ih.0, rw ih.1, ih.2, ih.3 ∙ (unfold get in refl), ih.4 ∙ (unfold get in refl))
]

pub piperead-poll :
    (killed : Bool) (n : ℕ) (p : Pipe)
    → IsValid p
    → IsValid (piperead killed n p).1
      × (let (r, p') = piperead killed n p in (r, view p') ≡ poll killed n (view p))
unfolding piperead poll
piperead-poll killed n p v = elim (Bool-cases (is_empty p && p.writeopen)) [
  | inl wait ↦ rw (same, wait) (v, refl)
  | inr go ↦
      rw (same, go)
        (let copied = copy_out-take n p v in
          (copied.0, rw (copied.1, copied.2, copied.3, copied.4)))
]
  where
    same : ((length (contents p) == 0) && p.writeopen) ≡ (is_empty p && p.writeopen)
    same = rw (is_empty_iff p v, length-contents p)

step-refines :
    (c : Call) {p : Pipe}
    → IsValid p
    → IsValid (step p c).1
      × (let (r, p') = step p c in (r, view p') ≡ Fifo.step pipe_size (view p) c)
unfolding step Fifo.step
step-refines (write killed n xs) {p} v = pipewrite-offer killed n p xs v
step-refines (read killed n) {p} v = piperead-poll killed n p v
step-refines close_read v =
    (record { read_word = v.read_word; write_word = v.write_word; fits = v.fits }, refl)
step-refines close_write v =
    (record { read_word = v.read_word; write_word = v.write_word; fits = v.fits }, refl)

-- Over every schedule of writes, reads and closes, a valid pipe gives the replies of the bounded
-- queue of its bytes: which runs return, fail or sleep, the bytes they copy out, whom they wake up.
pub run_refines :
    (cs : List Call) {p : Pipe} → IsValid p → run p cs ≡ Fifo.run pipe_size (view p) cs
unfolding run Fifo.run
run_refines [] v = refl
run_refines (c ∷ cs) {p} v = rw (run_refines cs (step-refines c v).0, ← (step-refines c v).1)
