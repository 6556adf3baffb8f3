-- ===== src/Common/Slices.antt =====
-- Ranges of an array: reading one, writing one, and moving one towards the front.
use Prim.Native.Nat.{ℕ, zero, suc, ◌+◌, ◌-◌, ◌<◌, ◌≤◌}
use mathlib.Core.Path.{◌≡◌, refl, ap, ap₂, ◌∙◌}
use mathlib.Core.List.{List, [], ◌∷◌, ◌++◌}
use native.Mathlib.Omega.{arith}
use weee_chatroom.Common.Lists.{
  length, get_or, set, take, drop, length-set, get_or-set_self, get_or-set_ne, get_or-append_left,
}

-- The `n` elements from index `i` on; `d` stands for those past the end.
abbrev pub slice : List ℕ → ℕ → ℕ → List ℕ
slice bs i zero = []
slice bs i (suc n) = get_or bs i 0 ∷ slice bs (suc i) n

-- `std::copy(data, data + len, begin + i)` into the array.
unfoldable pub write_at : List ℕ → ℕ → List ℕ → List ℕ
write_at bs i [] = bs
write_at bs i (x ∷ xs) = write_at (set bs i x) (suc i) xs

-- `std::copy(begin + src, begin + src + n, begin + dst)` within the array, element by element.
unfoldable pub copy_forward : List ℕ → ℕ → ℕ → ℕ → List ℕ
copy_forward bs src zero dst = bs
copy_forward bs src (suc n) dst = copy_forward (set bs dst (get_or bs src 0)) (suc src) n (suc dst)

pub length-slice : (bs : List ℕ) (i n : ℕ) → length (slice bs i n) ≡ n
length-slice bs i zero = refl
length-slice bs i (suc n) = ap suc (length-slice bs (suc i) n)

pub length-write_at : (bs : List ℕ) (i : ℕ) (xs : List ℕ) → length (write_at bs i xs) ≡ length bs
unfolding write_at
length-write_at bs i [] = refl
length-write_at bs i (x ∷ xs) = length-write_at (set bs i x) (suc i) xs ∙ length-set bs i x

pub length-copy_forward :
    (bs : List ℕ) (src n dst : ℕ) → length (copy_forward bs src n dst) ≡ length bs
unfolding copy_forward
length-copy_forward bs src zero dst = refl
length-copy_forward bs src (suc n) dst =
    length-copy_forward (set bs dst (get_or bs src 0)) (suc src) n (suc dst)
    ∙ length-set bs dst (get_or bs src 0)

-- A write before the range, or past it, leaves the range alone.
pub slice-set_below : (bs : List ℕ) (j v i n : ℕ) → j < i → slice (set bs j v) i n ≡ slice bs i n
slice-set_below bs j v i zero h = refl
slice-set_below bs j v i (suc n) h =
    ap₂ ◌∷◌ (get_or-set_ne bs j i v 0 (omega arith))
      (slice-set_below bs j v (suc i) n (omega arith))

pub slice-set_above :
    (bs : List ℕ) (j v i n : ℕ) → i + n ≤ j → slice (set bs j v) i n ≡ slice bs i n
slice-set_above bs j v i zero h = refl
slice-set_above bs j v i (suc n) h =
    ap₂ ◌∷◌ (get_or-set_ne bs j i v 0 (omega arith))
      (slice-set_above bs j v (suc i) n (omega arith))

pub get_or-write_at_below :
    (bs : List ℕ) (j : ℕ) (xs : List ℕ) (i : ℕ)
    → i < j
    → get_or (write_at bs j xs) i 0 ≡ get_or bs i 0
unfolding write_at
get_or-write_at_below bs j [] i h = refl
get_or-write_at_below bs j (x ∷ xs) i h =
    get_or-write_at_below (set bs j x) (suc j) xs i (omega arith)
    ∙ get_or-set_ne bs j i x 0 (omega arith)

pub get_or-copy_forward_below :
    (bs : List ℕ) (src n dst i : ℕ)
    → i < dst
    → get_or (copy_forward bs src n dst) i 0 ≡ get_or bs i 0
unfolding copy_forward
get_or-copy_forward_below bs src zero dst i h = refl
get_or-copy_forward_below bs src (suc n) dst i h =
    get_or-copy_forward_below (set bs dst (get_or bs src 0)) (suc src) n (suc dst) i (omega arith)
    ∙ get_or-set_ne bs dst i (get_or bs src 0) 0 (omega arith)

pub slice-write_at_above :
    (bs : List ℕ) (j : ℕ) (xs : List ℕ) (i n : ℕ)
    → i + n ≤ j
    → slice (write_at bs j xs) i n ≡ slice bs i n
unfolding write_at
slice-write_at_above bs j [] i n h = refl
slice-write_at_above bs j (x ∷ xs) i n h =
    slice-write_at_above (set bs j x) (suc j) xs i n (omega arith) ∙ slice-set_above bs j x i n h

-- What is written is what is read back.
pub slice-write_at :
    (bs : List ℕ) (i : ℕ) (xs : List ℕ)
    → i + length xs ≤ length bs
    → slice (write_at bs i xs) i (length xs) ≡ xs
unfolding write_at
slice-write_at bs i [] h = refl
slice-write_at bs i (x ∷ xs) h =
    ap₂ ◌∷◌
      (get_or-write_at_below (set bs i x) (suc i) xs i (omega arith)
        ∙ get_or-set_self bs i x 0 (omega arith))
      (slice-write_at (set bs i x) (suc i) xs (omega (arith, length-set bs i x)))

-- A move towards the front keeps the elements, also where the ranges overlap.
pub slice-copy_forward :
    (bs : List ℕ) (src n dst : ℕ)
    → dst ≤ src
    → src + n ≤ length bs
    → slice (copy_forward bs src n dst) dst n ≡ slice bs src n
unfolding copy_forward
slice-copy_forward bs src zero dst h k = refl
slice-copy_forward bs src (suc n) dst h k =
    ap₂ ◌∷◌
      (get_or-copy_forward_below moved (suc src) n (suc dst) dst (omega arith)
        ∙ get_or-set_self bs dst v 0 (omega arith))
      (slice-copy_forward moved (suc src) n (suc dst) (omega arith)
          (omega (arith, length-set bs dst v))
        ∙ slice-set_below bs dst v (suc src) n (omega arith))
  where
    v : ℕ
    v = get_or bs src 0

    moved : List ℕ
    moved = set bs dst v

pub slice-append :
    (bs : List ℕ) (i n m : ℕ) → slice bs i (n + m) ≡ slice bs i n ++ slice bs (i + n) m
slice-append bs i zero m = ap₂ (slice bs) (omega arith) (omega arith)
slice-append bs i (suc n) m =
    let e : suc (n + m) ≡ suc n + m = omega arith in
    let f : suc i + n ≡ i + suc n = omega arith in
    rw (← e) (ap (◌∷◌ (get_or bs i 0)) (rw (← f) (slice-append bs (suc i) n m)))

pub slice-append_array :
    (bs ys : List ℕ) (i n : ℕ) → i + n ≤ length bs → slice (bs ++ ys) i n ≡ slice bs i n
slice-append_array bs ys i zero h = refl
slice-append_array bs ys i (suc n) h =
    ap₂ ◌∷◌ (get_or-append_left bs ys i 0 (omega arith))
      (slice-append_array bs ys (suc i) n (omega arith))

pub drop-slice :
    (bs : List ℕ) (i n k : ℕ) → k ≤ n → drop k (slice bs i n) ≡ slice bs (i + k) (n - k)
drop-slice bs i n zero h = ap₂ (slice bs) (omega arith) (omega arith)
drop-slice bs i zero (suc k) h = absurd (omega arith)
drop-slice bs i (suc n) (suc k) h =
    drop-slice bs (suc i) n k (omega arith) ∙ ap₂ (slice bs) (omega arith) (omega arith)

pub take-slice : (bs : List ℕ) (i n k : ℕ) → k ≤ n → take k (slice bs i n) ≡ slice bs i k
take-slice bs i n zero h = refl
take-slice bs i zero (suc k) h = absurd (omega arith)
take-slice bs i (suc n) (suc k) h =
    ap (◌∷◌ (get_or bs i 0)) (take-slice bs (suc i) n k (omega arith))
