-- ===== src/Strings/Tests.antt =====
-- The theorems about bytes and strings at concrete inputs.
use schoolstuff.Base.{
  ℕ, ◌+◌, ◌-◌, ◌≤◌, ◌<◌, ◌≡◌, refl, arith, leb, ltb, ◌&&◌, ◌==◌, if◌then◌else◌, inl,
}
use schoolstuff.Strings.{Memory, memmove, copy_down}
use schoolstuff.Strings.Blocks.{memmove_lem}
use schoolstuff.Strings.Chars.{Ends}

-- The string "hi" at 100, "ho" at 200, and NULs.
abbrev greetings : Memory
greetings a =
    if a == 100
    then 104
    else if a == 101
    then 105
    else if a == 200
    then 104
    else if a == 201
    then 111
    else 0

greetings-lt : (a : ℕ) → greetings a < 256
greetings-lt a = ground arith

hi-Ends : (n : ℕ) → 2 ≤ n → Ends greetings 100 2 n
hi-Ends n h = (λ j hj. ground arith, h, inl refl)

-- The source and the destination overlap in two bytes.
memmove_lem_example :
    memmove 101 100 3 greetings 102
    ≡ (if leb 101 102 && ltb 102 (101 + 3) then greetings (100 + (102 - 101)) else greetings 102)
memmove_lem_example = memmove_lem 101 100 3 greetings 102

moved : memmove 101 100 3 greetings 102 ≡ 105
unfolding memmove copy_down
moved = refl
