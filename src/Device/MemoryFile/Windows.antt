-- ===== src/Device/MemoryFile/Windows.antt =====
-- Bytes of a file one by one: the copies of storage/tree/persist.go.
use native.Mathlib.Nat.{add-zero}
use go_tfhfs.Common.{
  ℕ, zero, suc, ◌+◌, ◌-◌, ◌≤◌, ◌<◌, ◌≡◌, refl, ap, [], ◌∷◌, ◌++◌, Bytes, length, take, drop,
  replicate, if◌then◌else◌, ltb, arith, get_or,
}
use go_tfhfs.Device.MemoryFile.{overwrite}

-- The `n` bytes of `file` from `ofs` on; past the end they are 0.
unfoldable pub bytes_at : Bytes → ℕ → ℕ → Bytes
bytes_at file ofs zero = []
bytes_at file ofs (suc n) = get_or file ofs 0 ∷ bytes_at file (suc ofs) n

pub bytes_at_ext :
    (f g : Bytes) (ofs n : ℕ)
    → ((i : ℕ) → ofs ≤ i → i < ofs + n → get_or f i 0 ≡ get_or g i 0)
    → bytes_at f ofs n ≡ bytes_at g ofs n
unfolding bytes_at
bytes_at_ext f g ofs zero h = refl
bytes_at_ext f g ofs (suc n) h = rw (
  h ofs (omega arith) (omega arith),
  bytes_at_ext f g (suc ofs) n (λ i lo hi. h i (omega arith) (omega arith)),
)

pub bytes_at-shift :
    (f g : Bytes) (a b n : ℕ)
    → ((i : ℕ) → i < n → get_or f (a + i) 0 ≡ get_or g (b + i) 0)
    → bytes_at f a n ≡ bytes_at g b n
unfolding bytes_at
bytes_at-shift f g a b zero h = refl
bytes_at-shift f g a b (suc n) h =
    let here : get_or f a 0 ≡ get_or g b 0 = rw (add-zero, add-zero) at (h 0 (omega arith)) in
    let later : (i : ℕ) → i < n → get_or f (suc a + i) 0 ≡ get_or g (suc b + i) 0 =
      λ i lt. shifted i (h (suc i) (omega arith)) in
    rw (here, bytes_at-shift f g (suc a) (suc b) n later)
  where
    shifted :
        (i : ℕ)
        → get_or f (a + suc i) 0 ≡ get_or g (b + suc i) 0
        → get_or f (suc a + i) 0 ≡ get_or g (suc b + i) 0
    shifted i e =
        let p : suc a + i ≡ a + suc i = omega arith in
        let q : suc b + i ≡ b + suc i = omega arith in rw (p, q) e

pub bytes_at-append :
    (f : Bytes) (ofs n m : ℕ) → bytes_at f ofs (n + m) ≡ bytes_at f ofs n ++ bytes_at f (ofs + n) m
unfolding bytes_at
bytes_at-append f ofs zero m =
    let p : zero + m ≡ m = omega arith in let q : ofs + zero ≡ ofs = omega arith in rw (p, q)
bytes_at-append f ofs (suc n) m =
    let p : suc n + m ≡ suc (n + m) = omega arith in
    let q : ofs + suc n ≡ suc ofs + n = omega arith in
    rw (p, q, bytes_at) (ap (◌∷◌ (get_or f ofs 0)) (bytes_at-append f (suc ofs) n m))

drop_step : (f : Bytes) (ofs : ℕ) → ofs < length f → drop ofs f ≡ get_or f ofs 0 ∷ drop (suc ofs) f
drop_step [] ofs h = elim h [ ]
drop_step (x ∷ f) zero h = refl
drop_step (x ∷ f) (suc ofs) h = drop_step f ofs (omega arith)

pub take-drop :
    (f : Bytes) (ofs n : ℕ) → ofs + n ≤ length f → take n (drop ofs f) ≡ bytes_at f ofs n
unfolding bytes_at
take-drop f ofs zero h = refl
take-drop f ofs (suc n) h =
    rw (drop_step f ofs (omega arith))
      (ap (◌∷◌ (get_or f ofs 0)) (take-drop f (suc ofs) n (omega arith)))

pub overwrite-replicate :
    (f : Bytes) (ofs n : ℕ)
    → ofs + n ≤ length f
    → overwrite (replicate n 0) (drop ofs f) ≡ bytes_at f ofs n
unfolding bytes_at overwrite
overwrite-replicate f ofs zero h = refl
overwrite-replicate f ofs (suc n) h =
    rw (drop_step f ofs (omega arith))
      (ap (◌∷◌ (get_or f ofs 0)) (overwrite-replicate f (suc ofs) n (omega arith)))

pub get_or-append :
    (xs ys : Bytes) (i : ℕ)
    → get_or (xs ++ ys) i 0
      ≡ (if ltb i (length xs) then get_or xs i 0 else get_or ys (i - length xs) 0)
get_or-append [] ys i = let p : i - 0 ≡ i = omega arith in ground arith
get_or-append (x ∷ xs) ys zero = ground arith
get_or-append (x ∷ xs) ys (suc i) = ground (arith, get_or-append xs ys i)

pub get_or-take : (n : ℕ) (xs : Bytes) (i : ℕ) → i < n → get_or (take n xs) i 0 ≡ get_or xs i 0
get_or-take zero xs i h = elim h [ ]
get_or-take (suc n) [] i h = refl
get_or-take (suc n) (x ∷ xs) zero h = refl
get_or-take (suc n) (x ∷ xs) (suc i) h = get_or-take n xs i (omega arith)

pub get_or-drop : (n : ℕ) (xs : Bytes) (i : ℕ) → get_or (drop n xs) i 0 ≡ get_or xs (n + i) 0
get_or-drop zero xs i = let p : zero + i ≡ i = omega arith in rw p
get_or-drop (suc n) [] i = refl
get_or-drop (suc n) (x ∷ xs) i =
    let p : suc n + i ≡ suc (n + i) = omega arith in rw p (get_or-drop n xs i)

pub get_or-replicate : (n i : ℕ) → ◌≡◌ {A = ℕ} (get_or (replicate n 0) i 0) 0
get_or-replicate zero i = refl
get_or-replicate (suc n) zero = refl
get_or-replicate (suc n) (suc i) = get_or-replicate n i

pub get_or-past : (xs : Bytes) (i : ℕ) → length xs ≤ i → ◌≡◌ {A = ℕ} (get_or xs i 0) 0
get_or-past [] i h = refl
get_or-past (x ∷ xs) zero h = elim h [ ]
get_or-past (x ∷ xs) (suc i) h = get_or-past xs i (omega arith)

-- Filling a file up with zeros changes no byte that is read.
pub get_or-grown : (xs : Bytes) (n i : ℕ) → get_or (xs ++ replicate n 0) i 0 ≡ get_or xs i 0
get_or-grown xs n i = ground (
  arith,
  get_or-append xs (replicate n 0) i,
  get_or-replicate n (i - length xs),
  get_or-past xs i,
)

pub length-overwrite : (ds ss : Bytes) → length (overwrite ds ss) ≡ length ds
unfolding overwrite
length-overwrite [] ss = refl
length-overwrite (d ∷ ds) [] = refl
length-overwrite (d ∷ ds) (s ∷ ss) = ap suc (length-overwrite ds ss)

pub get_or-overwrite :
    (ds ss : Bytes) (i : ℕ)
    → length ss ≤ length ds
    → get_or (overwrite ds ss) i 0 ≡ (if ltb i (length ss) then get_or ss i 0 else get_or ds i 0)
unfolding overwrite
get_or-overwrite [] ss i h = ground (arith, get_or-past ss i)
get_or-overwrite (d ∷ ds) [] i h = ground arith
get_or-overwrite (d ∷ ds) (s ∷ ss) zero h = ground arith
get_or-overwrite (d ∷ ds) (s ∷ ss) (suc i) h = ground (arith, get_or-overwrite ds ss i)
