-- ===== src/Fs/Elements.antt =====
-- fs.c: what `skipelem` takes off a path.
use mathlib.Core.List.{append-nil, nil≢cons, head-eq_of_cons-eq}
use native.Mathlib.Decide.{ℕ_discrete}
use schoolstuff.Base.{
  ℕ, zero, suc, ◌≤◌, ◌<◌, ◌≡◌, ◌≢◌, ◌⊎◌, refl, true, false, none, some, List, [], ◌∷◌, ◌++◌, arith,
  leb, ◌==◌, inl, inr, Bool-cases, ne→==, ==_refl, ◌∙◌, sym, ap, length, min,
}
use schoolstuff.Strings.Paste.{pasted-inside, pasted-outside}
use schoolstuff.Fs.Inode.{Buffer}
use schoolstuff.Fs.Dir.{dirsiz}
use schoolstuff.Fs.Paths.{slash, skip_slashes, to_slash, byte_at, put_name, skip_name, skipelem}

abbrev pub slashes : ℕ → List ℕ
slashes zero = []
slashes (suc n) = slash ∷ slashes n

-- No byte of it is a slash.
abbrev pub Plain : List ℕ → Type 0
Plain [] = Unit
Plain (b ∷ bs) = (b ≢ slash) × Plain bs

-- It does not start with a slash.
abbrev pub Bare : List ℕ → Type 0
Bare [] = Unit
Bare (b ∷ bs) = b ≢ slash

skip_slashes_lem :
    (path : List ℕ) → (n : ℕ) × (path ≡ slashes n ++ skip_slashes path) × Bare (skip_slashes path)
unfolding skip_slashes
skip_slashes_lem [] = (0, refl, tt)
skip_slashes_lem (b ∷ path) = elim (ℕ_discrete b slash) [
  | yes e ↦
      let (n, split, bare) = skip_slashes_lem path in
      let test : (b == slash) ≡ true = ground arith in
      rw test (suc n, ap (λ x. x ∷ path) e ∙ ap (λ p. slash ∷ p) split, bare)
  | no ne ↦ rw (ne→== b slash ne) (0, refl, ne)
]

-- An element and the rest, which is empty or starts with a slash.
abbrev Split : List ℕ → List ℕ × List ℕ → Type 0
Split path (elem, rest) =
    (path ≡ elem ++ rest) × Plain elem × ((rest ≡ []) ⊎ ((r : List ℕ) × (rest ≡ slash ∷ r)))

to_slash_lem : (path : List ℕ) → Split path (to_slash path)
unfolding to_slash
to_slash_lem [] = (refl, tt, inl refl)
to_slash_lem (b ∷ path) = elim (ℕ_discrete b slash) [
  | yes e ↦
      let test : (b == slash) ≡ true = ground arith in
      rw test (refl, tt, inr (path, ap (λ x. x ∷ path) e))
  | no ne ↦
      let (split, plain, stop) = to_slash_lem path in
      rw (ne→== b slash ne) (ap (λ p. b ∷ p) split, (ne, plain), stop)
]

-- The first element `elem` of `path`, up to DIRSIZ bytes of it in `name'`, and the `rest` of the path.
pub record Removed (path : List ℕ) (name : Buffer) (rest : List ℕ) (name' : Buffer) : Type 0 where
  pub before : ℕ
  pub elem : List ℕ
  pub after : ℕ
  pub split : path ≡ slashes before ++ (elem ++ (slashes after ++ rest))
  pub plain : Plain elem
  pub some_byte : 1 ≤ length elem
  pub stop : (rest ≡ []) ⊎ (1 ≤ after)
  pub bare : Bare rest
  pub bytes : (i : ℕ) → i < min (length elem) dirsiz → name' i ≡ byte_at elem i
  pub ended : length elem < dirsiz → name' (length elem) ≡ 0
  pub others : (i : ℕ) → min (suc (length elem)) dirsiz ≤ i → name' i ≡ name i

module _ (elem : List ℕ) (name : Buffer) where
  put_name-bytes : (i : ℕ) → i < min (length elem) dirsiz → put_name elem name i ≡ byte_at elem i
  unfolding put_name
  put_name-bytes i h = elim (Bool-cases (leb dirsiz (length elem))) [
    | inl long ↦ rw long (
        pasted-inside 0 dirsiz (byte_at elem) name i (omega arith) (omega arith)
        ∙ ap (byte_at elem) (omega arith))
    | inr short ↦
        rw (short, ne→== (length elem) i (omega arith))
          (pasted-inside 0 (length elem) (byte_at elem) name i (omega arith) (omega arith)
            ∙ ap (byte_at elem) (omega arith))
  ]

  put_name-ended : length elem < dirsiz → put_name elem name (length elem) ≡ 0
  unfolding put_name
  put_name-ended h =
      let short : leb dirsiz (length elem) ≡ false = ground arith in
      rw (short, ==_refl (length elem))

  put_name-others : (i : ℕ) → min (suc (length elem)) dirsiz ≤ i → put_name elem name i ≡ name i
  unfolding put_name
  put_name-others i h = elim (Bool-cases (leb dirsiz (length elem))) [
    | inl long ↦
        let le : dirsiz ≤ length elem = ground arith in
        rw long (pasted-outside 0 dirsiz (byte_at elem) name i (inr (omega arith)))
    | inr short ↦
        let lt : length elem < dirsiz = ground arith in
        rw (short, ne→== (length elem) i (omega arith))
          (pasted-outside 0 (length elem) (byte_at elem) name i (inr (omega arith)))
  ]

to_slash-some : (b : ℕ) (p : List ℕ) → b ≢ slash → 1 ≤ length (to_slash (b ∷ p)).0
unfolding to_slash
to_slash-some b p ne = rw (ne→== b slash ne) (omega arith)

-- What is left of the path is empty only if there is no more after the slashes.
rest-stop :
    (rest r : List ℕ) (m : ℕ)
    → (rest ≡ []) ⊎ ((q : List ℕ) × (rest ≡ slash ∷ q))
    → rest ≡ slashes m ++ r
    → Bare r
    → (r ≡ []) ⊎ (1 ≤ m)
rest-stop rest r (suc m) stop split bare = inr (omega arith)
rest-stop rest [] zero stop split bare = inl refl
rest-stop rest (b ∷ r) zero (inl e) split bare = absurd (nil≢cons (sym e ∙ split))
rest-stop rest (b ∷ r) zero (inr (q, e)) split bare =
    absurd (bare (head-eq_of_cons-eq (sym split ∙ e)))

-- skipelem returns a null pointer, and the path is slashes only; or it returns the rest of the path after its
-- first element and the slashes that follow it. The rest is empty or starts with another byte than
-- a slash. The element, without slashes and not empty, is in `name` with a NUL after it if it has less than
-- DIRSIZ bytes, and else its first DIRSIZ bytes are. No byte of `name` past DIRSIZ changes.
pub skipelem_lem :
    (path : List ℕ) (name : Buffer)
    → ((skipelem path name ≡ none) × (n : ℕ) × (path ≡ slashes n))
      ⊎ ((rest : List ℕ) × (name' : Buffer) × (skipelem path name ≡ some (rest, name'))
          × Removed path name rest name')
unfolding skipelem
skipelem_lem path name =
    let (n, split, bare) = skip_slashes_lem path in skip_name_lem n (skip_slashes path) split bare
  where
    skip_name_lem :
        (n : ℕ) (p : List ℕ)
        → path ≡ slashes n ++ p
        → Bare p
        → ((skip_name p name ≡ none) × (n : ℕ) × (path ≡ slashes n))
          ⊎ ((rest : List ℕ) × (name' : Buffer) × (skip_name p name ≡ some (rest, name'))
              × Removed path name rest name')
    skip_name_lem n [] split bare = inl (refl, n, split ∙ append-nil (slashes n))
    skip_name_lem n (b ∷ p) split bare =
        let (join, plain, stop) = to_slash_lem (b ∷ p) in
        let elem = (to_slash (b ∷ p)).0 in
        let rest = (to_slash (b ∷ p)).1 in
        let (m, gap, bare') = skip_slashes_lem rest in
        inr (
          skip_slashes rest,
          put_name elem name,
          refl,
          record {
            before = n;
            elem = elem;
            after = m;
            split = split ∙ ap (λ q. slashes n ++ q) (join ∙ ap (λ q. elem ++ q) gap);
            plain = plain;
            some_byte = to_slash-some b p bare;
            stop = rest-stop rest (skip_slashes rest) m stop gap bare';
            bare = bare';
            bytes = put_name-bytes elem name;
            ended = put_name-ended elem name;
            others = put_name-others elem name;
          },
        )
