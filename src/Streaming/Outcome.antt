-- ===== src/Streaming/Outcome.antt =====
-- What a C function of the transcoder does to the world: it returns, or it goes through a null
-- pointer, divides by zero or overflows an int (`crashes`), or the fuel of a loop runs out.
use quicsy.Prelude.{ℕ, ◌/◌, Bool, true, false, Option, none, some, ◌==◌, if◌then◌else◌}
use quicsy.Prelude.Int.{ℤ, pos, negsuc}

pub data Outcome (W A : Type 0) : Type 0 where
  returns : A → W → Outcome W A
  crashes : Outcome W A
  out_of_fuel : Outcome W A

abbrev pub M : Type 0 → Type 0 → Type 0
M W A = W → Outcome W A

abbrev pub after : {W A B : Type 0} → Outcome W A → (A → M W B) → Outcome W B
after (returns a w) f = f a w
after crashes f = crashes
after out_of_fuel f = out_of_fuel

infixl 5 ◌>>=◌ ◌>>◌
abbrev pub ◌>>=◌ : {W A B : Type 0} → M W A → (A → M W B) → M W B
◌>>=◌ m f w = after (m w) f

abbrev pub ◌>>◌ : {W B : Type 0} → M W (Unit {0}) → M W B → M W B
◌>>◌ m k w = after (m w) (λ _. k)

abbrev pub pure : {W A : Type 0} → A → M W A
pure a w = returns a w

-- A call that only changes the world, and one that answers too.
abbrev pub act : {W : Type 0} → (W → W) → M W (Unit {0})
act f w = returns tt (f w)

abbrev pub call : {W A : Type 0} → (W → A × W) → M W A
call f w = returns (f w).0 (f w).1

abbrev pub read : {W A : Type 0} → (W → A) → M W A
read f w = returns (f w) w

-- `p->…` through a pointer that may be null.
abbrev pub deref : {W A : Type 0} → Option A → M W A
deref none w = crashes
deref (some a) w = returns a w

abbrev pub divide : {W : Type 0} → ℕ → ℕ → M W ℕ
divide a b w = if b == 0 then crashes else returns (a / b) w

abbrev pub is_neg : ℤ → Bool
is_neg (pos n) = false
is_neg (negsuc n) = true

abbrev pub eq_ℤ : ℤ → ℤ → Bool
eq_ℤ (pos a) (pos b) = a == b
eq_ℤ (negsuc a) (negsuc b) = a == b
eq_ℤ (pos a) (negsuc b) = false
eq_ℤ (negsuc a) (pos b) = false

-- The codes 0 and -1 of the program's own functions.
abbrev pub ok : ℤ
ok = pos 0

abbrev pub failure : ℤ
failure = negsuc 0
