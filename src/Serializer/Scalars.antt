-- ===== src/Serializer/Scalars.antt =====
-- The bytes of a number in memory and on the wire, whatever the order of bytes of the machine.
use kvrpc.Base.{
  ℕ, zero, suc, ◌+◌, ◌*◌, ◌/◌, ◌%◌, ◌<◌, ◌≡◌, refl, sym, ap, ◌∙◌, Bool, true, false, ◌∷◌, Bytes,
  length, get_or, arith,
}
use kvrpc.Serializer.{table, place, shift, to_memory, sum_from, from_memory}

-- 256 to a power.
abbrev pub words : ℕ → ℕ
words zero = 1
words (suc k) = 256 * words k

shift-suc : (i n : ℕ) → shift i (n / 256) ≡ shift (suc i) n
unfolding shift
shift-suc zero n = refl
shift-suc (suc i) n = ap (λ z. z / 256) (shift-suc i n)

shift_small : (i n : ℕ) → n < words i → shift i n ≡ 0
shift_small zero n h = unfold shift in omega arith
shift_small (suc i) n h =
    let small : n / 256 < words i = omega arith in
    sym (shift-suc i n) ∙ shift_small i (n / 256) small

pub get_or-table :
    (f : ℕ → ℕ) (i count j : ℕ) → j < count → get_or (table f i count) j 0 ≡ f (i + j)
unfolding table
get_or-table f i (suc count) zero h = ap f (omega arith)
get_or-table f i (suc count) (suc j) h =
    get_or-table f (i + 1) count j (omega arith) ∙ ap f (omega arith)
get_or-table f i zero j h = absurd (omega arith)

place-place : (little : Bool) (size i : ℕ) → i < size → place little size (place little size i) ≡ i
place-place true size i h = refl
place-place false size i h = omega arith

place_lt : (little : Bool) (size i : ℕ) → i < size → place little size i < size
place_lt true size i h = h
place_lt false size i h = omega arith

-- The byte at a place, of a table from 0.
at_place :
    (little : Bool) (f : ℕ → ℕ) (size i : ℕ)
    → i < size
    → get_or (table f 0 size) (place little size i) 0 ≡ f (place little size i)
at_place little f size i h =
    get_or-table f 0 size (place little size i) (place_lt little size i h) ∙ ap f (omega arith)

pub length-table : (f : ℕ → ℕ) (i count : ℕ) → length (table f i count) ≡ count
unfolding table
length-table f i zero = refl
length-table f i (suc count) = ap suc (length-table f (i + 1) count)

table_same :
    (f g : ℕ → ℕ) (i count : ℕ)
    → ((j : ℕ) → j < i + count → f j ≡ g j)
    → table f i count ≡ table g i count
unfolding table
table_same f g i zero h = refl
table_same f g i (suc count) h =
    let rest = table_same f g (i + 1) count (λ j k. h j (omega arith)) in
    ap (λ z. z ∷ table f (i + 1) count) (h i (omega arith)) ∙ ap (◌∷◌ (g i)) rest

sum_same :
    (f g : ℕ → ℕ) (i count : ℕ)
    → ((j : ℕ) → j < i + count → f j ≡ g j)
    → sum_from f i count ≡ sum_from g i count
unfolding sum_from
sum_same f g i zero h = refl
sum_same f g i (suc count) h =
    omega (arith, h i (omega arith), sum_same f g (i + 1) count (λ j k. h j (omega arith)))

-- The bytes of a number, the low one first.
abbrev pub little_bytes : ℕ → ℕ → Bytes
little_bytes size n = table (λ i. shift i n % 256) 0 size

sum_bytes :
    (n i count : ℕ) → shift (i + count) n ≡ 0 → sum_from (λ j. shift j n % 256) i count ≡ shift i n
unfolding sum_from
sum_bytes n i zero h = sym h ∙ ap (λ z. shift z n) (omega arith)
sum_bytes n i (suc count) h =
    let e : i + 1 + count ≡ i + suc count = omega arith in
    let rest = sum_bytes n (i + 1) count (ap (λ z. shift z n) e ∙ h) in
    let f : i + 1 ≡ suc i = omega arith in
    let next : shift (i + 1) n ≡ shift i n / 256 = ap (λ z. shift z n) f ∙ unfold shift in refl in
    omega (arith, rest, next)

module _ (little : Bool) where
  -- Either machine writes the low byte first.
  pub written_bytes :
      (size n : ℕ)
      → table (λ i. get_or (to_memory little size n) (place little size i) 0) 0 size
        ≡ little_bytes size n
  unfolding to_memory
  written_bytes size n = table_same _ _ 0 size (λ j h.
      at_place little (λ i. shift (place little size i) n % 256) size j (omega arith)
      ∙ ap (λ z. shift z n % 256) (place-place little size j (omega arith)))

  -- And either makes the number of those bytes.
  pub read_bytes :
      (size n : ℕ) (f : ℕ → ℕ)
      → n < words size
      → ((i : ℕ) → i < size → f i ≡ shift i n % 256)
      → from_memory little size (table (λ i. f (place little size i)) 0 size) ≡ n
  unfolding from_memory
  read_bytes size n f h e =
      sum_same _ (λ j. shift j n % 256) 0 size
        (λ j k.
          at_place little (λ i. f (place little size i)) size j (omega arith)
          ∙ ap f (place-place little size j (omega arith))
          ∙ e j (omega arith))
      ∙ sum_bytes n 0 size (ap (λ z. shift z n) (omega arith) ∙ shift_small size n h)
      ∙ unfold shift in refl
