-- ===== src/Tests/Hundredths.antt =====
-- Numbers of hundredths, rounded towards 0, as floats that meet the laws.
use wealthfinder.Prelude.{
  ℕ, zero, suc, ◌+◌, ◌*◌, ◌/◌, ◌≤◌, ◌<◌, ◌≡◌, refl, ap, sym, Bool, true, false, leb, ltb, nat_beq,
  nat_beq_iff, ◌∙◌, leb→le, ltb→lt, ltb→le, arith,
}
use wealthfinder.Prelude.Int.{ℤ, pos, negsuc, pos_part, neg_part, ◌+ℤ◌, +ℤ_parts}
use wealthfinder.Prelude.Floats.{Floats, IsArithmetic}
use wealthfinder.StockList.Search.Scores.{IsLinear}

-- -n
abbrev pub negate : ℕ → ℤ
negate zero = pos 0
negate (suc n) = negsuc n

abbrev pub neg : ℤ → ℤ
neg (pos n) = negate n
neg (negsuc n) = pos (suc n)

abbrev pub abs : ℤ → ℤ
abs (pos n) = pos n
abs (negsuc n) = pos (suc n)

-- an operation on magnitudes, with the sign of a product
abbrev pub signed : (ℕ → ℕ → ℕ) → ℤ → ℤ → ℤ
signed op (pos m) (pos n) = pos (op m n)
signed op (pos m) (negsuc n) = negate (op m (suc n))
signed op (negsuc m) (pos n) = negate (op (suc m) n)
signed op (negsuc m) (negsuc n) = pos (op (suc m) (suc n))

abbrev pub times : ℕ → ℕ → ℕ
times m n = m * n / 100

abbrev pub over : ℕ → ℕ → ℕ
over m n = m * 100 / n

abbrev pub compare_by : (ℕ → ℕ → Bool) → ℤ → ℤ → Bool
compare_by test x y = test (pos_part x + neg_part y) (pos_part y + neg_part x)

instance abbrev pub hundredths_floats : Floats ℤ
hundredths_floats = record {
  hundredths = pos;
  quotient = λ m n. pos (m * 100 / n);
  neg = neg;
  abs = abs;
  add = ◌+ℤ◌;
  mul = signed times;
  div = signed over;
  le = compare_by leb;
  lt = compare_by ltb;
  eq = compare_by nat_beq;
}

negate_parts : (n : ℕ) → (pos_part (negate n) ≡ 0) × (neg_part (negate n) ≡ n)
negate_parts zero = (refl, refl)
negate_parts (suc n) = (refl, refl)

neg-negate : (n : ℕ) → neg (negate n) ≡ pos n
neg-negate zero = refl
neg-negate (suc n) = refl

abs-negate : (n : ℕ) → abs (negate n) ≡ pos n
abs-negate zero = refl
abs-negate (suc n) = refl

mul_mono_nat : (a b c : ℕ) → a ≤ b → a * c ≤ b * c
mul_mono_nat a b c h = grind arith

times_mono : (a b c : ℕ) → a ≤ b → times a c ≤ times b c
times_mono a b c h = omega (arith, mul_mono_nat a b c h)

div_mono_nat : (m n c : ℕ) → m ≤ n → m / c ≤ n / c
div_mono_nat m n c h = grind arith

le_iff : (x y : ℤ) → pos_part x + neg_part y ≤ pos_part y + neg_part x → compare_by leb x y ≡ true
le_iff x y h = ground arith

-- an operation that is monotone in its first argument
module _ (op : ℕ → ℕ → ℕ) (c : ℕ) (mono : (a b : ℕ) → a ≤ b → op a c ≤ op b c) where
  signed_mono :
      (x y : ℤ)
      → compare_by leb x y ≡ true
      → compare_by leb (signed op x (pos c)) (signed op y (pos c)) ≡ true
  signed_mono (pos a) (pos b) h = ground (arith, mono a b)
  signed_mono (pos a) (negsuc b) h = ground arith
  signed_mono (negsuc a) (pos b) h =
      le_iff (signed op (negsuc a) (pos c)) (signed op (pos b) (pos c))
        (omega (arith, negate_parts (op (suc a) c)))
  signed_mono (negsuc a) (negsuc b) h =
      le_iff (signed op (negsuc a) (pos c)) (signed op (negsuc b) (pos c)) (
        omega (
          arith,
          negate_parts (op (suc a) c),
          negate_parts (op (suc b) c),
          mono (suc b) (suc a) (omega (arith, leb→le _ _ h)),
        ))

module _ (op : ℕ → ℕ → ℕ) where
  signed-neg : (x y : ℤ) → ((n : ℕ) → op n 0 ≡ 0) → signed op x (neg y) ≡ neg (signed op x y)
  signed-neg (pos m) (pos zero) z = rw (z m) refl
  signed-neg (pos m) (pos (suc n)) z = refl
  signed-neg (pos m) (negsuc n) z = sym (neg-negate (op m (suc n)))
  signed-neg (negsuc m) (pos zero) z = rw (z (suc m)) refl
  signed-neg (negsuc m) (pos (suc n)) z = sym (neg-negate (op (suc m) (suc n)))
  signed-neg (negsuc m) (negsuc n) z = refl

  neg-signed : (x y : ℤ) → ((n : ℕ) → op 0 n ≡ 0) → signed op (neg x) y ≡ neg (signed op x y)
  neg-signed (pos zero) (pos n) z = rw (z n) refl
  neg-signed (pos zero) (negsuc n) z = rw (z (suc n)) refl
  neg-signed (pos (suc m)) (pos n) z = refl
  neg-signed (pos (suc m)) (negsuc n) z = sym (neg-negate (op (suc m) (suc n)))
  neg-signed (negsuc m) (pos n) z = sym (neg-negate (op (suc m) n))
  neg-signed (negsuc m) (negsuc n) z = refl

times_zero : (n : ℕ) → times n 0 ≡ 0
times_zero n = omega arith

times_hundred : (n : ℕ) → times n 100 ≡ n
times_hundred n = omega arith

zero_over : (n : ℕ) → over 0 n ≡ 0
zero_over zero = refl
zero_over (suc n) = grind arith

over_self : (n : ℕ) → 0 < n → over n n ≡ 100
over_self n h = grind arith

neg_mono : (x y : ℤ) → compare_by leb x y ≡ true → compare_by leb (neg y) (neg x) ≡ true
neg_mono (pos m) (pos n) h =
    le_iff (negate n) (negate m) (omega (arith, leb→le _ _ h, negate_parts m, negate_parts n))
neg_mono (pos m) (negsuc n) h = ground arith
neg_mono (negsuc m) (pos n) h = le_iff (negate n) (pos (suc m)) (omega (arith, negate_parts n))
neg_mono (negsuc m) (negsuc n) h = ground arith

mul_mono :
    (x y w : ℤ)
    → compare_by leb (pos 0) w ≡ true
    → compare_by leb x y ≡ true
    → compare_by leb (signed times x w) (signed times y w) ≡ true
mul_mono x y (pos c) h k = signed_mono times c (λ a b. times_mono a b c) x y k
mul_mono x y (negsuc c) h k = absurd (ground arith)

div_mono :
    (x y w : ℤ)
    → compare_by leb (pos 0) w ≡ true
    → compare_by leb x y ≡ true
    → compare_by leb (signed over x w) (signed over y w) ≡ true
div_mono x y (pos c) h k =
    signed_mono over c (λ a b p. div_mono_nat (a * 100) (b * 100) c (omega arith)) x y k
div_mono x y (negsuc c) h k = absurd (ground arith)

add_parts :
    (x y z w : ℤ)
    → compare_by leb x y ≡ true
    → compare_by leb z w ≡ true
    → compare_by leb (x +ℤ z) (y +ℤ w) ≡ true
add_parts x y z w h k =
    le_iff (x +ℤ z) (y +ℤ w) (omega (arith, leb→le _ _ h, leb→le _ _ k, +ℤ_parts x z, +ℤ_parts y w))

neg_parts : (x : ℤ) → (pos_part (neg x) ≡ neg_part x) × (neg_part (neg x) ≡ pos_part x)
neg_parts (pos zero) = (refl, refl)
neg_parts (pos (suc n)) = (refl, refl)
neg_parts (negsuc n) = (refl, refl)

eq_of_parts : (a b : ℤ) → pos_part a + neg_part b ≡ pos_part b + neg_part a → a ≡ b
eq_of_parts a b h = ground arith

add-neg : (x y : ℤ) → neg x +ℤ neg y ≡ neg (x +ℤ y)
add-neg x y = eq_of_parts (neg x +ℤ neg y) (neg (x +ℤ y)) (
    omega
      (arith, neg_parts x, neg_parts y, neg_parts (x +ℤ y), +ℤ_parts x y, +ℤ_parts (neg x) (neg y)))

module _ (op : ℕ → ℕ → ℕ) where
  zero-signed : (x : ℤ) → ((n : ℕ) → op 0 n ≡ 0) → signed op (pos 0) x ≡ pos 0
  zero-signed (pos n) z = ap pos (z n)
  zero-signed (negsuc n) z = ap negate (z (suc n))

times_hundred_left : (n : ℕ) → times 100 n ≡ n
times_hundred_left n = omega arith

mul_zero : (x : ℤ) → signed times x (pos 0) ≡ pos 0
mul_zero (pos n) = ap pos (times_zero n)
mul_zero (negsuc n) = ap negate (times_zero (suc n))

one_mul : (x : ℤ) → signed times (pos 100) x ≡ x
one_mul (pos n) = ap pos (times_hundred_left n)
one_mul (negsuc n) = ap negate (times_hundred_left (suc n))

mul_one : (x : ℤ) → signed times x (pos 100) ≡ x
mul_one (pos n) = ap pos (times_hundred n)
mul_one (negsuc n) = ap negate (times_hundred (suc n))

div_self : (x : ℤ) → compare_by nat_beq x (pos 0) ≡ false → signed over x x ≡ pos 100
div_self (pos zero) h = absurd (ground arith)
div_self (pos (suc n)) h = ap pos (over_self (suc n) (omega arith))
div_self (negsuc n) h = ap pos (over_self (suc n) (omega arith))

abs_pos : (x : ℤ) → compare_by leb (pos 0) x ≡ true → abs x ≡ x
abs_pos (pos n) h = refl
abs_pos (negsuc n) h = absurd (ground arith)

abs-neg : (x : ℤ) → abs (neg x) ≡ abs x
abs-neg (pos n) = abs-negate n
abs-neg (negsuc n) = refl

pub hundredths_IsArithmetic : IsArithmetic ℤ
unfolding ◌+ℤ◌
hundredths_IsArithmetic = record {
  le_refl = λ x. ground arith;
  le_trans = λ x y z h k. le_iff x z (omega (arith, leb→le _ _ h, leb→le _ _ k));
  le_of_lt = λ x y h. le_iff x y (omega (arith, ltb→lt _ _ h));
  le_of_not_lt = λ x y h. le_iff y x (omega (arith, ltb→le _ _ h));
  lt_irrefl = λ x. ground arith;
  hundredths_mono = λ m n h. ground arith;
  quotient_pos = λ m n h. ground arith;
  add_mono = add_parts;
  add_zero = λ x. eq_of_parts (x +ℤ pos 0) x (omega (arith, +ℤ_parts x (pos 0)));
  add-neg = add-neg;
  neg_mono = neg_mono;
  neg_zero = refl;
  mul_mono = mul_mono;
  zero_mul = λ x. zero-signed times x (λ n. omega arith);
  mul_zero = mul_zero;
  one_mul = one_mul;
  mul_one = mul_one;
  mul-neg = λ x y. signed-neg times x y times_zero;
  neg-mul = λ x y. neg-signed times x y (λ n. omega arith);
  div_mono = λ x y w h _. div_mono x y w h;
  zero_div = λ w _. zero-signed over w zero_over;
  div_self = div_self;
  neg-div = λ x w. neg-signed over x w zero_over;
  abs_pos = abs_pos;
  abs-neg = abs-neg;
  weights_of_ten = refl;
}

lt_of_parts :
    (x y : ℤ) → pos_part x + neg_part y < pos_part y + neg_part x → compare_by ltb x y ≡ true
lt_of_parts x y h = ground arith

pub hundredths_IsLinear : IsLinear ℤ
hundredths_IsLinear = record {
  lt_irrefl = λ x. ground arith;
  lt_trans = λ x y z h k. lt_of_parts x z (omega (arith, ltb→lt _ _ h, ltb→lt _ _ k));
  lt_total = λ x y h k. eq_of_parts x y (omega (arith, ltb→le _ _ h, ltb→le _ _ k));
  eq_iff = λ x y. (
    λ h. eq_of_parts x y ((nat_beq_iff _ _).0 h),
    λ e. (nat_beq_iff _ _).1 (ap (λ (z : ℤ). pos_part z + neg_part y) e ∙ rw e refl),
  );
}
