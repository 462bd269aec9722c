-- ===== src/Fs/Paths.antt =====
-- fs.c: path names. A string is its bytes before the NUL, and a pointer into it is the rest of them.
use schoolstuff.Base.{
  ℕ, zero, suc, Bool, true, false, not, ◌&&◌, Option, none, some, List, [], ◌∷◌, leb, ◌==◌,
  if◌then◌else◌, update, length,
}
use schoolstuff.Base.Outcome.{Outcome, ok, panic, ◌>>=◌}
use schoolstuff.Strings.Paste.{pasted}
use schoolstuff.Fs.{Volume}
use schoolstuff.Fs.Inode.{Buffer, Devsw, ilock}
use schoolstuff.Fs.Icache.{Cache, iget, idup, iput}
use schoolstuff.Fs.Dir.{t_dir, dirsiz, dirlookup}

-- The byte '/'
abbrev pub slash : ℕ
slash = 47

unfoldable pub skip_slashes : List ℕ → List ℕ
skip_slashes [] = []
skip_slashes (b ∷ path) = let rest = skip_slashes path in if b == slash then rest else b ∷ path

-- The second loop of `skipelem`: the bytes that it passes, and the rest.
unfoldable pub to_slash : List ℕ → List ℕ × List ℕ
to_slash [] = ([], [])
to_slash (b ∷ path) =
    let (elem, rest) = to_slash path in if b == slash then ([], b ∷ path) else (b ∷ elem, rest)

abbrev pub byte_at : List ℕ → ℕ → ℕ
byte_at [] i = 0
byte_at (b ∷ bs) zero = b
byte_at (b ∷ bs) (suc i) = byte_at bs i

unfoldable pub put_name : List ℕ → Buffer → Buffer
put_name elem name =
    if leb dirsiz (length elem)
    then pasted 0 dirsiz (byte_at elem) name
    else update (pasted 0 (length elem) (byte_at elem) name) (length elem) 0

abbrev pub skip_name : List ℕ → Buffer → Option (List ℕ × Buffer)
skip_name [] name = none
skip_name (b ∷ path) name =
    let (elem, rest) = to_slash (b ∷ path) in some (skip_slashes rest, put_name elem name)

unfoldable pub skipelem : List ℕ → Buffer → Option (List ℕ × Buffer)
skipelem path name = skip_name (skip_slashes path) name

-- What `namex` returns: the inode or a null pointer, and the last element in `name`.
abbrev pub NameEnd : Type 0
NameEnd = Option ℕ × Buffer × Cache × Volume

abbrev pub put_and_fail : ℕ → Buffer → Cache → Volume → Outcome NameEnd
put_and_fail i name c v = do (c', v') ← iput i c v; ok (none, name, c', v')

abbrev pub is_last : List ℕ → Bool
is_last [] = true
is_last (b ∷ path) = false

-- After the loop.
abbrev pub end_path : Bool → ℕ → Buffer → Cache → Volume → Outcome NameEnd
end_path parent i name c v = if parent then put_and_fail i name c v else ok (some i, name, c, v)

-- A round of the loop, with the rounds after it.
abbrev pub walk :
    (ℕ → Buffer → Cache → Volume → Outcome NameEnd)
    → Devsw
    → Bool
    → ℕ
    → List ℕ
    → Buffer
    → Cache
    → Volume
    → Outcome NameEnd
walk more k parent i path name c v = do
  ip ← ilock (c i) v
  let c1 = update c i ip
  let descend = do
    (r, c2, v2) ← dirlookup k i name c1 v
    let enter = λ (next : ℕ). do (c3, v3) ← iput i c2 v2; more next name c3 v3
    elim r [ none ↦ put_and_fail i name c2 v2 | some (off, next) ↦ enter next ]
  let deeper = if parent && is_last path then ok (some i, name, c1, v) else descend
  if not (ip.type == t_dir) then put_and_fail i name c1 v else deeper

-- The test of the loop and its body.
abbrev pub round :
    (ℕ → List ℕ → Buffer → Cache → Volume → Outcome NameEnd)
    → Devsw
    → Bool
    → ℕ
    → Buffer
    → Cache
    → Volume
    → Option (List ℕ × Buffer)
    → Outcome NameEnd
round more k parent i name c v none = end_path parent i name c v
round more k parent i name c v (some (rest, name')) =
    walk (λ j. more j rest) k parent i rest name' c v

-- The loop of `namex`, on fuel.
unfoldable pub namex_from :
    ℕ → Devsw → Bool → ℕ → List ℕ → Buffer → Cache → Volume → Outcome NameEnd
namex_from zero k parent i path name c v = panic
namex_from (suc fuel) k parent i path name c v =
    round (namex_from fuel k parent) k parent i name c v (skipelem path name)

-- ROOTDEV and ROOTINO, or the directory `cwd` of the process.
abbrev pub first_inode : List ℕ → ℕ → Cache → Outcome (ℕ × Cache)
first_inode [] cwd c = ok (cwd, idup cwd c)
first_inode (b ∷ path) cwd c = if b == slash then iget 1 1 c else ok (cwd, idup cwd c)

unfoldable pub namex : Devsw → Bool → ℕ → List ℕ → Buffer → Cache → Volume → Outcome NameEnd
namex k parent cwd path name c v = do
  (i, c') ← first_inode path cwd c
  namex_from (suc (length path)) k parent i path name c' v

unfoldable pub namei : Devsw → ℕ → List ℕ → Cache → Volume → Outcome NameEnd
namei k cwd path c v = namex k false cwd path (λ i. 0) c v

unfoldable pub nameiparent : Devsw → ℕ → List ℕ → Buffer → Cache → Volume → Outcome NameEnd
nameiparent k cwd path name c v = namex k true cwd path name c v
