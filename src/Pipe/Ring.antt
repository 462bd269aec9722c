-- ===== src/Pipe/Ring.antt =====
-- The invariant of `struct pipe`, and the queue that its ring of bytes holds across the wrap of
-- the two 32-bit counters.
use schoolstuff.Base.{
  ℕ, zero, suc, ◌%◌, ◌^◌, ◌≤◌, ◌<◌, ◌≡◌, ◌≢◌, refl, ap, List, [], ◌∷◌, ◌++◌, arith, ◌==◌, length,
  add32, sub32, update,
}
use mathlib.Core.Path.{ap₂}
use schoolstuff.Pipe.Fifo.{Fifo}
use schoolstuff.Pipe.{Pipe, pipe_size, is_full, is_empty, put, get}

-- The number of bytes in the ring.
abbrev pub count : Pipe → ℕ
count p = sub32 p.nwrite p.nread

pub record IsValid (p : Pipe) : Type 0 where
  pub read_word : p.nread < 2 ^ 32
  pub write_word : p.nwrite < 2 ^ 32
  pub fits : count p ≤ pipe_size

-- The `n` bytes from counter `i` on.
abbrev pub window : (ℕ → ℕ) → ℕ → ℕ → List ℕ
window f i zero = []
window f i (suc n) = f (i % pipe_size) ∷ window f (add32 i 1) n

abbrev pub contents : Pipe → List ℕ
contents p = window p.slots p.nread (count p)

-- The abstract queue of a pipe.
abbrev pub view : Pipe → Fifo
view p = record { queue = contents p; can_read = p.readopen; can_write = p.writeopen }

length-window : (f : ℕ → ℕ) (i n : ℕ) → length (window f i n) ≡ n
length-window f i zero = refl
length-window f i (suc n) = ap suc (length-window f (add32 i 1) n)

pub length-contents : (p : Pipe) → length (contents p) ≡ count p
length-contents p = length-window p.slots p.nread (count p)

-- A write just past a window of fewer than 512 bytes extends it: 512 divides 2 ^ 32.
window-update :
    (f : ℕ → ℕ) (x n i j : ℕ)
    → i < 2 ^ 32
    → n < pipe_size
    → j ≡ add32 i n
    → window (update f (j % pipe_size) x) i (suc n) ≡ window f i n ++ (x ∷ [])
window-update f x zero i j hi hn e = ap₂ ◌∷◌ (ground arith) refl
window-update f x (suc n) i j hi hn e =
    ap₂ ◌∷◌ (ground (arith, apart))
      (window-update f x n (add32 i 1) j (omega arith) (omega arith) (omega arith))
  where
    apart : j % pipe_size ≢ i % pipe_size
    apart = omega arith

pub is_full_iff : (p : Pipe) → IsValid p → is_full p ≡ (count p == pipe_size)
is_full_iff p v = ground arith

pub is_empty_iff : (p : Pipe) → IsValid p → is_empty p ≡ (count p == 0)
is_empty_iff p v = ground arith

module _ {p : Pipe} (v : IsValid p) where
  pub count-put : (x : ℕ) → count p < pipe_size → count (put p x) ≡ suc (count p)
  unfolding put
  count-put x h = omega arith

  pub put-IsValid : (x : ℕ) → count p < pipe_size → IsValid (put p x)
  unfolding put
  put-IsValid x h = omega arith

  -- A byte that is put in comes last.
  pub contents-put : (x : ℕ) → count p < pipe_size → contents (put p x) ≡ contents p ++ (x ∷ [])
  contents-put x h =
      rw (count-put x h) (
        unfold put in
        window-update p.slots x (count p) p.nread p.nwrite v.read_word h (omega arith))

  pub get-IsValid : 0 < count p → IsValid (get p).1
  unfolding get
  get-IsValid h = omega arith

  pub count-get : 0 < count p → count p ≡ suc (count (get p).1)
  unfolding get
  count-get h = omega arith

  -- The byte that is taken out was first.
  pub contents-get : 0 < count p → contents p ≡ (get p).0 ∷ contents (get p).1
  contents-get h = rw (count-get h) (unfold get in refl)
