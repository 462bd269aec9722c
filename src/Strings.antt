-- ===== src/Strings.antt =====
-- cs350/cs350-18f-lab6-base/string.c: the routines on bytes and C strings, over one memory of bytes.
-- A pointer is an address, and no object wraps around the address space. An int that a routine
-- returns is its 32-bit pattern; one that counts bytes is 0 where it is negative.
pub mod Paste
pub mod Blocks
pub mod Chars
mod Tests
use schoolstuff.Base.{
  ℕ, zero, suc, ◌+◌, ◌-◌, ◌*◌, ◌/◌, ◌%◌, ◌^◌, Bool, true, false, not, ◌&&◌, ◌||◌, ltb, ◌==◌,
  if◌then◌else◌, update, sub32,
}

abbrev pub Memory : Type 0
Memory = ℕ → ℕ

-- `rep stosb`
unfoldable pub stosb : ℕ → ℕ → ℕ → Memory → Memory
stosb addr byte zero m = m
stosb addr byte (suc cnt) m = stosb (addr + 1) byte cnt (update m addr (byte % 256))

-- The four bytes of a word, the low one first.
unfoldable pub store_word : ℕ → ℕ → Memory → Memory
store_word addr w m =
    update
      (update (update (update m addr (w % 256)) (addr + 1) (w / 2 ^ 8 % 256)) (addr + 2)
        (w / 2 ^ 16 % 256))
      (addr + 3) (w / 2 ^ 24 % 256)

-- `rep stosl`
unfoldable pub stosl : ℕ → ℕ → ℕ → Memory → Memory
unfolding store_word
stosl addr w zero m = m
stosl addr w (suc cnt) m = stosl (addr + 4) w cnt (store_word addr w m)

-- `c` four times over: the shifts of `memset` put the bytes side by side.
abbrev pub spread : ℕ → ℕ
spread c = c * 2 ^ 24 + c * 2 ^ 16 + c * 2 ^ 8 + c

unfoldable pub memset : ℕ → ℕ → ℕ → Memory → Memory
unfolding stosb stosl
memset dst c n m =
    if (dst % 4 == 0) && (n % 4 == 0)
    then stosl dst (spread (c % 256)) (n / 4) m
    else stosb dst c n m

unfoldable pub memcmp : Memory → ℕ → ℕ → ℕ → ℕ
memcmp m v1 v2 zero = 0
memcmp m v1 v2 (suc n) =
    let rest = memcmp m (v1 + 1) (v2 + 1) n in
    if not (m v1 == m v2) then sub32 (m v1) (m v2) else rest

-- The two loops of `memmove`: `n` bytes downwards to `d`, from `s`, and upwards.
unfoldable pub copy_down : ℕ → ℕ → ℕ → Memory → Memory
copy_down d s zero m = m
copy_down d s (suc n) m = copy_down (d - 1) (s - 1) n (update m (d - 1) (m (s - 1)))

unfoldable pub copy_up : ℕ → ℕ → ℕ → Memory → Memory
copy_up d s zero m = m
copy_up d s (suc n) m = copy_up (d + 1) (s + 1) n (update m d (m s))

unfoldable pub memmove : ℕ → ℕ → ℕ → Memory → Memory
unfolding copy_down copy_up
memmove dst src n m =
    if ltb src dst && ltb dst (src + n)
    then copy_down (dst + n) (src + n) n m
    else copy_up dst src n m

unfoldable pub strncmp : Memory → ℕ → ℕ → ℕ → ℕ
strncmp m p q zero = 0
strncmp m p q (suc n) =
    let rest = strncmp m (p + 1) (q + 1) n in
    if not (m p == 0) && (m p == m q) then rest else sub32 (m p) (m q)

-- The second loop of `strncpy`, then the whole of it.
unfoldable pub zero_fill : ℕ → ℕ → Memory → Memory
zero_fill s zero m = m
zero_fill s (suc n) m = zero_fill (s + 1) n (update m s 0)

unfoldable pub strncpy : ℕ → ℕ → ℕ → Memory → Memory
unfolding zero_fill
strncpy s t zero m = m
strncpy s t (suc n) m =
    let m' = update m s (m t) in
    let rest = strncpy (s + 1) (t + 1) n m' in if m t == 0 then zero_fill (s + 1) n m' else rest

-- The loop of `safestrcpy` for at most `n` bytes: the memory, and where `s` has got to.
unfoldable pub copy_string : ℕ → ℕ → ℕ → Memory → ℕ × Memory
copy_string s t zero m = (s, m)
copy_string s t (suc n) m =
    let m' = update m s (m t) in
    let rest = copy_string (s + 1) (t + 1) n m' in if m t == 0 then (s + 1, m') else rest

unfoldable pub safestrcpy : ℕ → ℕ → ℕ → Memory → Memory
unfolding copy_string
safestrcpy s t zero m = m
safestrcpy s t (suc n) m = let (s', m') = copy_string s t n m in update m' s' 0

-- On fuel: the bytes of the object.
unfoldable pub strlen : ℕ → Memory → ℕ → ℕ
strlen zero m s = 0
strlen (suc fuel) m s = let rest = strlen fuel m (s + 1) in if m s == 0 then 0 else rest + 1
